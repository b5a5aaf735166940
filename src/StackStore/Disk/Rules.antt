-- ===== src/StackStore/Disk/Rules.antt =====
-- Rules for what an action on the files leaves, however its calls come out.
use orichum.Base.{Bool, true, List, [], ◌∷◌, ◌≡◌}
use orichum.StackStore.{StoreError}
use orichum.StackStore.Disk.{
  Files, Outcome, done, fails, stops, World, Exit, returned, raised, stopped, Act, pure, raise,
  after, handled, ◌>>=◌, ◌>>◌, rescue, take_turn, call,
}

-- The outcomes have a failure only if `f`, and a stop only if `s`.
abbrev pub Runs : Bool → Bool → List Outcome → Type 0
Runs f s [] = Unit
Runs f s (done ∷ os) = Runs f s os
Runs f s (fails ∷ os) = (f ≡ true) × Runs f s os
Runs f s (stops ∷ os) = (s ≡ true) × Runs f s os

module _ (f s : Bool) {A : Type 0} where
  -- `Q` holds where the action returned, `E` where it raised and `S` where it stopped.
  abbrev pub Ends : (Q : A → Files → Type 0) (E S : Files → Type 0) → Exit A × World → Type 0
  Ends Q E S (returned a, w) = Runs f s w.outcomes × Q a w.files
  Ends Q E S (raised e, w) = Runs f s w.outcomes × E w.files
  Ends Q E S (stopped, w) = S w.files

  pub record Holds (P : Files → Type 0) (m : Act A) (Q : A → Files → Type 0) (E S : Files → Type 0)
      : Type 0 where
    pub run : (w : World) → Runs f s w.outcomes → P w.files → Ends Q E S (m w)

  take_turn-Ends :
      (P : Files → Type 0) (step : Files → A × Files) (Q : A → Files → Type 0)
      (E S : Files → Type 0)
      → ((x : Files) → P x → Q (step x).0 (step x).1)
      → ((x : Files) → f ≡ true → P x → E x)
      → ((x : Files) → s ≡ true → P x → S x)
      → (w : World) (os : List Outcome) → Runs f s os
      → P w.files
      → Ends Q E S (take_turn step w os)
  take_turn-Ends P step Q E S q e t w [] r p = (tt, q w.files p)
  take_turn-Ends P step Q E S q e t w (done ∷ os) r p = (r, q w.files p)
  take_turn-Ends P step Q E S q e t w (fails ∷ os) r p = (r.1, e w.files r.0 p)
  take_turn-Ends P step Q E S q e t w (stops ∷ os) r p = t w.files r.0 p

  pub call-Holds :
      {P : Files → Type 0} {Q : A → Files → Type 0} {E S : Files → Type 0}
      (step : Files → A × Files)
      → ((x : Files) → P x → Q (step x).0 (step x).1)
      → ((x : Files) → f ≡ true → P x → E x)
      → ((x : Files) → s ≡ true → P x → S x)
      → Holds P (call step) Q E S
  unfolding call
  call-Holds step q e t = record {
    run = λ w r p. take_turn-Ends _ step _ _ _ q e t w w.outcomes r p;
  }

  pub pure-Holds :
      {P : Files → Type 0} {Q : A → Files → Type 0} {E S : Files → Type 0} (a : A)
      → ((x : Files) → P x → Q a x)
      → Holds P (pure a) Q E S
  pure-Holds a q = record { run = λ w r p. (r, q w.files p) }

  pub raise-Holds :
      {P : Files → Type 0} {Q : A → Files → Type 0} {E S : Files → Type 0} (x : StoreError)
      → ((y : Files) → P y → E y)
      → Holds P (raise x) Q E S
  raise-Holds x e = record { run = λ w r p. (r, e w.files p) }

  handled-Ends :
      {Q : A → Files → Type 0} {E E' S : Files → Type 0} (x : Exit A × World)
      (h : StoreError → Act A)
      → Ends Q E S x
      → ((y : StoreError) → Holds E (h y) Q E' S)
      → Ends Q E' S (handled x h)
  handled-Ends (returned a, w) h q k = q
  handled-Ends (raised y, w) h q k = (k y).run w q.0 q.1
  handled-Ends (stopped, w) h q k = q

  pub rescue-Holds :
      {P : Files → Type 0} {m : Act A} {h : StoreError → Act A} {Q : A → Files → Type 0}
      {E E' S : Files → Type 0}
      → Holds P m Q E S
      → ((y : StoreError) → Holds E (h y) Q E' S)
      → Holds P (rescue m h) Q E' S
  rescue-Holds {m} {h} a k = record { run = λ w r p. handled-Ends (m w) h (a.run w r p) k }

  -- From less, the same.
  pub given :
      {P P' : Files → Type 0} {m : Act A} {Q : A → Files → Type 0} {E S : Files → Type 0}
      → ((x : Files) → P' x → P x)
      → Holds P m Q E S
      → Holds P' m Q E S
  given g a = record { run = λ w r p. a.run w r (g w.files p) }

  concluded :
      (Q Q' : A → Files → Type 0) (E S : Files → Type 0) (x : Exit A × World)
      → ((a : A) (y : Files) → Q a y → Q' a y)
      → Ends Q E S x
      → Ends Q' E S x
  concluded Q Q' E S (returned a, w) q h = (h.0, q a w.files h.1)
  concluded Q Q' E S (raised y, w) q h = h
  concluded Q Q' E S (stopped, w) q h = h

  pub conclude :
      {P : Files → Type 0} {m : Act A} {Q Q' : A → Files → Type 0} {E S : Files → Type 0}
      → ((a : A) (y : Files) → Q a y → Q' a y)
      → Holds P m Q E S
      → Holds P m Q' E S
  conclude {m} q h = record { run = λ w r p. concluded _ _ _ _ (m w) q (h.run w r p) }

  -- A fact that the precondition has may be used in the proof of what follows.
  pub know :
      {P : Files → Type 0} {m : Act A} {Q : A → Files → Type 0} {E S : Files → Type 0} {F : Type 0}
      → (F → Holds P m Q E S)
      → Holds (λ x. P x × F) m Q E S
  know h = record { run = λ w r p. (h p.1).run w r p.0 }

module _ (f s : Bool) {A B : Type 0} where
  after-Ends :
      {Q : A → Files → Type 0} {R : B → Files → Type 0} {E S : Files → Type 0} (x : Exit A × World)
      (k : A → Act B)
      → Ends f s Q E S x
      → ((a : A) → Holds f s (Q a) (k a) R E S)
      → Ends f s R E S (after x k)
  after-Ends (returned a, w) k q h = (h a).run w q.0 q.1
  after-Ends (raised e, w) k q h = q
  after-Ends (stopped, w) k q h = q

  pub bind-Holds :
      {P : Files → Type 0} {m : Act A} {k : A → Act B} {Q : A → Files → Type 0}
      {R : B → Files → Type 0} {E S : Files → Type 0}
      → Holds f s P m Q E S
      → ((a : A) → Holds f s (Q a) (k a) R E S)
      → Holds f s P (m >>= k) R E S
  bind-Holds {m} {k} a h = record { run = λ w r p. after-Ends (m w) k (a.run w r p) h }

-- The same where nothing follows an exception, so that nothing is kept of the outcomes after it.
module _ (f s : Bool) {A : Type 0} where
  abbrev pub Left : (Q : A → Files → Type 0) (E S : Files → Type 0) → Exit A × World → Type 0
  Left Q E S (returned a, w) = Runs f s w.outcomes × Q a w.files
  Left Q E S (raised e, w) = E w.files
  Left Q E S (stopped, w) = S w.files

  pub record Leaves (P : Files → Type 0) (m : Act A) (Q : A → Files → Type 0) (E S : Files → Type 0)
      : Type 0 where
    pub run : (w : World) → Runs f s w.outcomes → P w.files → Left Q E S (m w)

  left :
      (Q : A → Files → Type 0) {E S E' S' : Files → Type 0} (x : Exit A × World)
      → ((y : Files) → E y → E' y)
      → ((y : Files) → S y → S' y)
      → Ends f s Q E S x
      → Left Q E' S' x
  left Q (returned a, w) e t h = h
  left Q (raised y, w) e t h = e w.files h.1
  left Q (stopped, w) e t h = t w.files h

  pub leave :
      {P : Files → Type 0} {m : Act A} {Q : A → Files → Type 0} {E S E' S' : Files → Type 0}
      → ((y : Files) → E y → E' y)
      → ((y : Files) → S y → S' y)
      → Holds f s P m Q E S
      → Leaves P m Q E' S'
  leave {m} e t h = record { run = λ w r p. left _ (m w) e t (h.run w r p) }

  pub know_left :
      {P : Files → Type 0} {m : Act A} {Q : A → Files → Type 0} {E S : Files → Type 0} {F : Type 0}
      → (F → Leaves P m Q E S)
      → Leaves (λ x. P x × F) m Q E S
  know_left h = record { run = λ w r p. (h p.1).run w r p.0 }

  -- A handler that raises in the end.
  after-raise :
      (Q : A → Files → Type 0) {E S : Files → Type 0} (x : Exit (Unit {0}) × World) (e : StoreError)
      → ((y : Files) → E y)
      → ((y : Files) → S y)
      → Left Q E S (after x (λ u. raise e))
  after-raise Q (returned u, w) e a b = a w.files
  after-raise Q (raised y, w) e a b = a w.files
  after-raise Q (stopped, w) e a b = b w.files

  handled-Left :
      (Q : A → Files → Type 0) {E E' S : Files → Type 0} (x : Exit A × World)
      (undo : StoreError → Act (Unit {0})) (as_error : StoreError → StoreError)
      → Ends f s Q E S x
      → ((y : Files) → E y → ((z : Files) → E' z) × ((z : Files) → S z))
      → Left Q E' S (handled x (λ e. undo e >> raise (as_error e)))
  handled-Left Q (returned a, w) undo as_error h k = h
  handled-Left Q (raised y, w) undo as_error h k =
      let (a, b) = k w.files h.1 in after-raise Q (undo y w) (as_error y) a b
  handled-Left Q (stopped, w) undo as_error h k = h

  pub rescue-Leaves :
      {P : Files → Type 0} {m : Act A} {Q : A → Files → Type 0} {E E' S : Files → Type 0}
      (undo : StoreError → Act (Unit {0})) (as_error : StoreError → StoreError)
      → Holds f s P m Q E S
      → ((y : Files) → E y → ((z : Files) → E' z) × ((z : Files) → S z))
      → Leaves P (rescue m (λ e. undo e >> raise (as_error e))) Q E' S
  rescue-Leaves {m} undo as_error h k = record {
    run = λ w r p. handled-Left _ (m w) undo as_error (h.run w r p) k;
  }

  reraised :
      (Q : A → Files → Type 0) (E S : Files → Type 0) (x : Exit A × World)
      (as_error : StoreError → StoreError)
      → Left Q E S x
      → Left Q E S (handled x (λ e. raise (as_error e)))
  reraised Q E S (returned a, w) as_error h = h
  reraised Q E S (raised y, w) as_error h = h
  reraised Q E S (stopped, w) as_error h = h

  pub reraise-Leaves :
      {P : Files → Type 0} {m : Act A} {Q : A → Files → Type 0} {E S : Files → Type 0}
      (as_error : StoreError → StoreError)
      → Leaves P m Q E S
      → Leaves P (rescue m (λ e. raise (as_error e))) Q E S
  reraise-Leaves {m} as_error h = record {
    run = λ w r p. reraised _ _ _ (m w) as_error (h.run w r p);
  }

module _ (f s : Bool) {A : Type 0} where
  more :
      (Q Q' : A → Files → Type 0) (E : Files → Type 0) {S S' : Files → Type 0} (x : Exit A × World)
      → ((a : A) (y : Files) → Q a y → Q' a y)
      → ((y : Files) → S y → S' y)
      → Left f s Q E S x
      → Left f s Q' E S' x
  more Q Q' E (returned a, w) q t h = (h.0, q a w.files h.1)
  more Q Q' E (raised y, w) q t h = h
  more Q Q' E (stopped, w) q t h = t w.files h

  pub weaken_left :
      {P : Files → Type 0} {m : Act A} {Q Q' : A → Files → Type 0} {E S S' : Files → Type 0}
      → ((a : A) (y : Files) → Q a y → Q' a y)
      → ((y : Files) → S y → S' y)
      → Leaves f s P m Q E S
      → Leaves f s P m Q' E S'
  weaken_left {m} q t h = record { run = λ w r p. more _ _ _ (m w) q t (h.run w r p) }

module _ (f s : Bool) {A B : Type 0} where
  after-Left :
      {Q : A → Files → Type 0} {R : B → Files → Type 0} {E S : Files → Type 0} (x : Exit A × World)
      (k : A → Act B)
      → Left f s Q E S x
      → ((a : A) → Leaves f s (Q a) (k a) R E S)
      → Left f s R E S (after x k)
  after-Left (returned a, w) k q h = (h a).run w q.0 q.1
  after-Left (raised e, w) k q h = q
  after-Left (stopped, w) k q h = q

  pub bind-Leaves :
      {P : Files → Type 0} {m : Act A} {k : A → Act B} {Q : A → Files → Type 0}
      {R : B → Files → Type 0} {E S : Files → Type 0}
      → Leaves f s P m Q E S
      → ((a : A) → Leaves f s (Q a) (k a) R E S)
      → Leaves f s P (m >>= k) R E S
  bind-Leaves {m} {k} a h = record { run = λ w r p. after-Left (m w) k (a.run w r p) h }
