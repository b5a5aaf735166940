-- ===== src/Sessions/Ancestors.antt =====
-- The loops of `clear_logical_sessions` end, and what they find.
use orichum.Base.{
  ℕ, zero, suc, ◌+◌, ◌≤◌, ◌<◌, String, Bool, true, false, not, ◌≡◌, ◌↔◌, ◌⊎◌, inl, inr, some, List,
  [], ◌∷◌, string_eq, nat_eq, refl, sym, ap, ◌∙◌, subst, arith, contains, Bool-cases, Option-cases,
  ◌==◌, ==_iff, select, length,
}
use mathlib.Core.Option.{some-injective}
use orichum.Base.Dict.{Dict, keys, has_key}
use orichum.Base.Result.{ok, err, Result-cases}
use orichum.Sessions.{Checked, cyclic}
use orichum.Sessions.Clear.{ById, parent_in, grow, known_active, retained_ids, depth_from}

-- The keys that are not among `r`.
fresh : List String → List String → ℕ
fresh ks r = length (select (λ k. not (contains r k)) ks)

fresh_le : (ks r : List String) (p : String) → fresh ks (p ∷ r) ≤ fresh ks r
unfolding fresh
fresh_le [] r p = omega arith
fresh_le (k ∷ ks) r p = ground (arith, fresh_le ks r p)

fresh_lt :
    (ks r : List String) (p : String)
    → contains ks p ≡ true
    → contains r p ≡ false
    → fresh ks (p ∷ r) < fresh ks r
unfolding fresh
fresh_lt [] r p h n = cc
fresh_lt (k ∷ ks) r p h n = ground (arith, fresh_lt ks r p, fresh_le ks r p)

fresh-length : (ks r : List String) → fresh ks r ≤ length ks
unfolding fresh
fresh-length [] r = omega arith
fresh-length (k ∷ ks) r = ground (arith, fresh-length ks r)

has_key-contains : {V : Type 0} (k : String) (d : Dict String V) → has_key k d ≡ contains (keys d) k
unfolding has_key
has_key-contains k [] = refl
has_key-contains k ((j, v) ∷ d) = ground (arith, has_key-contains k d)

parent_in-known : (d : ById) (i p : String) → parent_in d i ≡ some p → contains (keys d) p ≡ true
unfolding parent_in
parent_in-known d i p h = ground (arith, h, has_key-contains p d)

-- Reached from an active session by going to parents.
pub data Kept (d : ById) (active : List String) : String → Type 0 where
  is_active : {i : String} → contains active i ≡ true → Kept d active i
  is_parent : {i p : String} → Kept d active i → parent_in d i ≡ some p → Kept d active p

module _ (d : ById) where
  -- The loop ends within the fuel.
  grow-some :
      (n : ℕ) (pending retained : List String)
      → length pending + fresh (keys d) retained ≤ n
      → (r : List String) × (grow d n pending retained ≡ some r)
  unfolding grow
  grow-some n [] retained l = (retained, refl)
  grow-some zero (i ∷ pending) retained l = absurd (omega arith)
  grow-some (suc n) (i ∷ pending) retained l = elim (Option-cases (parent_in d i)) [
    | inl e ↦ rw (e, grow) (grow-some n pending retained (omega arith))
    | inr (p, e) ↦ elim (Bool-cases (contains retained p)) [
      | inl t ↦ rw (e, grow) (rw t (grow-some n pending retained (omega arith)))
      | inr f ↦
          let less = fresh_lt (keys d) retained p (parent_in-known d i p e) f in
          rw (e, grow) (rw f (grow-some n (p ∷ pending) (p ∷ retained) (omega arith)))
    ]
  ]

  -- What is retained is closed under parents, but for those still pending.
  abbrev Closed : List String → List String → Type 0
  Closed pending retained =
      (x : String)
      → contains retained x ≡ true
      → (contains pending x ≡ true)
        ⊎ ((p : String) → parent_in d x ≡ some p → contains retained p ≡ true)

  -- One turn of the loop: `i` is done, and what is new is pending.
  Closed-step :
      (i : String) (pending retained pending' retained' : List String)
      → Closed (i ∷ pending) retained
      → ((x : String) → contains pending x ≡ true → contains pending' x ≡ true)
      → ((x : String) → contains retained x ≡ true → contains retained' x ≡ true)
      → ((x : String)
          → contains retained' x ≡ true
          → (contains retained x ≡ true) ⊎ (contains pending' x ≡ true))
      → ((p : String) → parent_in d i ≡ some p → contains retained' p ≡ true)
      → Closed pending' retained'
  Closed-step i pending retained pending' retained' c up keep new own x k = elim (new x k) [
    | inr h ↦ inl h
    | inl old ↦ elim (c x old) [
      | inr f ↦ inr (λ p e. keep p (f p e))
      | inl h ↦ elim (Bool-cases (x == i)) [
        | inl t ↦ inr (λ p e. own p (ap (parent_in d) (sym ((==_iff x i).0 t)) ∙ e))
        | inr f ↦ inl (up x (ground (arith, h, f)))
      ]
    ]
  ]

  grow-Closed :
      (n : ℕ) (pending retained r : List String)
      → grow d n pending retained ≡ some r
      → Closed pending retained
      → Closed [] r
  unfolding grow
  grow-Closed n [] retained r h c = subst (Closed []) (some-injective retained r h) c
  grow-Closed zero (i ∷ pending) retained r h c = cc
  grow-Closed (suc n) (i ∷ pending) retained r h c = elim (Option-cases (parent_in d i)) [
    | inl e ↦ grow-Closed n pending retained r (ground (arith, e, h)) (
        Closed-step i pending retained pending retained c (λ x k. k) (λ x k. k) (λ x k. inl k)
          (λ p q. cc))
    | inr (p, e) ↦ elim (Bool-cases (contains retained p)) [
      | inl t ↦ grow-Closed n pending retained r (ground (arith, e, h, t)) (
          Closed-step i pending retained pending retained c (λ x k. k) (λ x k. k) (λ x k. inl k)
            (λ q f. ground (arith, e, f, t)))
      | inr f ↦ grow-Closed n (p ∷ pending) (p ∷ retained) r (ground (arith, e, h, f)) (
          Closed-step i pending retained (p ∷ pending) (p ∷ retained) c (λ x k. ground arith)
            (λ x k. ground arith) (λ x k. ground arith) (λ q g. ground (arith, e, g)))
    ]
  ]

  grow-keeps :
      (n : ℕ) (pending retained r : List String)
      → grow d n pending retained ≡ some r
      → (x : String) → contains retained x ≡ true
      → contains r x ≡ true
  unfolding grow
  grow-keeps n [] retained r h x k = ground (arith, h, k)
  grow-keeps zero (i ∷ pending) retained r h x k = cc
  grow-keeps (suc n) (i ∷ pending) retained r h x k = elim (Option-cases (parent_in d i)) [
    | inl e ↦ grow-keeps n pending retained r (ground (arith, e, h)) x k
    | inr (p, e) ↦ elim (Bool-cases (contains retained p)) [
      | inl t ↦ grow-keeps n pending retained r (ground (arith, e, h, t)) x k
      | inr f ↦
          grow-keeps n (p ∷ pending) (p ∷ retained) r (ground (arith, e, h, f)) x (ground arith)
    ]
  ]

  module _ (active : List String) where
    either :
        (p : String) (l : List String)
        → Kept d active p
        → ((x : String) → contains l x ≡ true → Kept d active x)
        → (x : String) → contains (p ∷ l) x ≡ true
        → Kept d active x
    either p l new old x k = elim (Bool-cases (x == p)) [
      | inl t ↦ subst (Kept d active) (sym ((==_iff x p).0 t)) new
      | inr f ↦ old x (ground (arith, f, k))
    ]

    grow-Kept :
        (n : ℕ) (pending retained r : List String)
        → grow d n pending retained ≡ some r
        → ((x : String) → contains pending x ≡ true → Kept d active x)
        → ((x : String) → contains retained x ≡ true → Kept d active x)
        → (x : String) → contains r x ≡ true
        → Kept d active x
    unfolding grow
    grow-Kept n [] retained r h a b x k = b x (ground (arith, h, k))
    grow-Kept zero (i ∷ pending) retained r h a b x k = cc
    grow-Kept (suc n) (i ∷ pending) retained r h a b x k =
        let tail : (x : String) → contains pending x ≡ true → Kept d active x =
          λ x k. a x (ground arith) in
        elim (Option-cases (parent_in d i)) [
          | inl e ↦ grow-Kept n pending retained r (ground (arith, e, h)) tail b x k
          | inr (p, e) ↦ elim (Bool-cases (contains retained p)) [
            | inl t ↦ grow-Kept n pending retained r (ground (arith, e, h, t)) tail b x k
            | inr f ↦
                let new : Kept d active p = is_parent (a i (ground arith)) e in
                grow-Kept n (p ∷ pending) (p ∷ retained) r (ground (arith, e, h, f))
                  (either p pending new tail) (either p retained new b) x k
          ]
        ]

  from_Kept :
      (active r : List String)
      → ((x : String) → contains active x ≡ true → contains r x ≡ true)
      → Closed [] r
      → (x : String) → Kept d active x
      → contains r x ≡ true
  from_Kept active r keeps closed x (is_active h) = keeps x h
  from_Kept active r keeps closed x (is_parent {i} k e) =
      elim (closed i (from_Kept active r keeps closed i k)) [ inl bad ↦ cc | inr f ↦ f x e ]

  select-length : (p : String → Bool) (ks : List String) → length (select p ks) ≤ length ks
  select-length p [] = omega arith
  select-length p (k ∷ ks) = ground (arith, select-length p ks)

  depth_from-some :
      (n : ℕ) (seen : List String) (i : String)
      → fresh (keys d) seen < n
      → (r : Checked ℕ) × (depth_from d n seen i ≡ some r)
  unfolding depth_from
  depth_from-some zero seen i l = absurd (omega arith)
  depth_from-some (suc n) seen i l = elim (Option-cases (parent_in d i)) [
    | inl e ↦ (ok 0, ground (arith, e))
    | inr (p, e) ↦ elim (Bool-cases (contains seen p)) [
      | inl t ↦ (err cyclic, ground (arith, e, t))
      | inr f ↦
          let less = fresh_lt (keys d) seen p (parent_in-known d i p e) f in
          let (c, q) = depth_from-some n (p ∷ seen) p (omega arith) in
          elim (Result-cases c) [
            | inl (k, z) ↦ (ok (suc k), ground (arith, e, f, q, z))
            | inr (x, z) ↦ (err x, ground (arith, e, f, q, z))
          ]
    ]
  ]

  grow_ends :
      (leased : List String)
      → (r : List String) × (grow d
            (length (keys d) + length (keys d))
            (known_active d leased)
            (known_active d leased)
          ≡ some r)
  unfolding known_active
  grow_ends leased =
      let few = select-length (contains leased) (keys d) in
      let left = fresh-length (keys d) (select (contains leased) (keys d)) in
      grow-some (length (keys d) + length (keys d)) (select (contains leased) (keys d))
        (select (contains leased) (keys d)) (omega arith)

  -- Both loops end within the fuel that they are given, also where the parents form a cycle: the one
  -- that collects the ancestors of the active sessions, and the one that measures a session's depth.
  pub clear-ends :
      (leased : List String) (i : String)
      → ((r : List String) × (grow d
              (length (keys d) + length (keys d))
              (known_active d leased)
              (known_active d leased)
            ≡ some r))
        × ((r : Checked ℕ) × (depth_from d (suc (length (keys d))) (i ∷ []) i ≡ some r))
  clear-ends leased i = (
    grow_ends leased,
    let left = fresh-length (keys d) (i ∷ []) in
        depth_from-some (suc (length (keys d))) (i ∷ []) i (omega arith),
  )

  -- A session is retained exactly when it is active or an ancestor of an active one.
  pub retained_ids_iff :
      (leased : List String) (x : String)
      → (contains (retained_ids d leased) x ≡ true) ↔ Kept d (known_active d leased) x
  unfolding retained_ids
  retained_ids_iff leased x =
      let active = known_active d leased in
      let (r, e) = grow_ends leased in
      let fuel = length (keys d) + length (keys d) in
      let closed = grow-Closed fuel active active r e (λ y k. inl k) in
      let keeps = grow-keeps fuel active active r e in
      let back : (y : String) → Kept d active y → contains r y ≡ true =
        from_Kept active r keeps closed in
      (
        λ k.
            grow-Kept active fuel active active r e (λ y. is_active) (λ y. is_active) x
              (rw (e, retained_ids) at k),
        λ k. rw (e, retained_ids) (back x k),
      )
