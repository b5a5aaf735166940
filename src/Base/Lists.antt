-- ===== src/Base/Lists.antt =====
-- Lists measured by native numbers, membership and predicates on lists.
use Prim.Native.Nat.{ℕ, zero, suc, ◌+◌, ◌≤◌, ◌<◌}
use mathlib.Core.Path.{◌≡◌, refl, sym, ap, ◌∙◌}
use mathlib.Core.Logic.{◌⊎◌, inl, inr}
use mathlib.Core.Bool.{Bool, true, false, ◌&&◌, ◌||◌}
use mathlib.Core.Option.{Option, none, some, some-injective}
use mathlib.Core.List.{List, [], ◌∷◌, ◌++◌, map}
use native.Mathlib.Omega.{arith}
use Prim.Native.String.{String}
use orichum.Base.Equality.{Eq, contains, if◌then◌else◌, Bool-cases}

module _ {ℓ} {A : Type ℓ} where
  abbrev pub length : List A → ℕ
  length [] = 0
  length (x ∷ xs) = suc (length xs)

  abbrev pub get_elem? : List A → ℕ → Option A
  get_elem? [] i = none
  get_elem? (x ∷ xs) zero = some x
  get_elem? (x ∷ xs) (suc i) = get_elem? xs i

  abbrev pub take : ℕ → List A → List A
  take zero xs = []
  take (suc n) [] = []
  take (suc n) (x ∷ xs) = x ∷ take n xs

  abbrev pub drop : ℕ → List A → List A
  drop zero xs = xs
  drop (suc n) [] = []
  drop (suc n) (x ∷ xs) = drop n xs

  -- A comprehension's `if`.
  abbrev pub select : (A → Bool) → List A → List A
  select p [] = []
  select p (x ∷ xs) = if p x then x ∷ select p xs else select p xs

  -- `all(...)`, `any(...)` and `next((... if ...), None)`.
  abbrev pub all : (A → Bool) → List A → Bool
  all p [] = true
  all p (x ∷ xs) = p x && all p xs

  abbrev pub any : (A → Bool) → List A → Bool
  any p [] = false
  any p (x ∷ xs) = p x || any p xs

  abbrev pub find : (A → Bool) → List A → Option A
  find p [] = none
  find p (x ∷ xs) = if p x then some x else find p xs

  abbrev pub All {κ} : (A → Type κ) → List A → Type κ
  All P [] = Unit
  All P (x ∷ xs) = P x × All P xs

-- `x` stands in the list.
abbrev pub In : {A : Type 0} → A → List A → Type 0
In x [] = ⊥
In x (y ∷ ys) = (x ≡ y) ⊎ In x ys

module _ {A : Type 0} where
  -- What a comprehension keeps passes its test, and stood in the list; nothing else is dropped.
  pub In-select : (p : A → Bool) (x : A) (xs : List A) → In x (select p xs) → In x xs × (p x ≡ true)
  In-select p x [] h = elim h [ ]
  In-select p x (y ∷ ys) h = elim (Bool-cases (p y)) [
    | inl e ↦ elim (let h' : (x ≡ y) ⊎ In x (select p ys) = rw e at h in h') [
      | inl q ↦ (inl q, rw q e)
      | inr r ↦ let (a, b) = In-select p x ys r in (inr a, b)
    ]
    | inr e ↦ let (a, b) = In-select p x ys (rw e at h) in (inr a, b)
  ]

  pub select-In : (p : A → Bool) (x : A) (xs : List A) → In x xs → p x ≡ true → In x (select p xs)
  select-In p x [] h t = elim h [ ]
  select-In p x (y ∷ ys) (inl q) t = rw (ap p (sym q) ∙ t) (inl q)
  select-In p x (y ∷ ys) (inr r) t = elim (Bool-cases (p y)) [
    | inl e ↦ rw e (inr (select-In p x ys r t))
    | inr e ↦ rw e (select-In p x ys r t)
  ]

  pub In-append_left : (x : A) (xs ys : List A) → In x xs → In x (xs ++ ys)
  In-append_left x [] ys h = elim h [ ]
  In-append_left x (z ∷ xs) ys (inl e) = inl e
  In-append_left x (z ∷ xs) ys (inr h) = inr (In-append_left x xs ys h)

  pub In-append_right : (x : A) (xs ys : List A) → In x ys → In x (xs ++ ys)
  In-append_right x [] ys h = h
  In-append_right x (z ∷ xs) ys h = inr (In-append_right x xs ys h)

  pub In-append : (x : A) (xs ys : List A) → In x (xs ++ ys) → In x xs ⊎ In x ys
  In-append x [] ys h = inr h
  In-append x (z ∷ xs) ys (inl e) = inl (inl e)
  In-append x (z ∷ xs) ys (inr h) = elim (In-append x xs ys h) [
    | inl a ↦ inl (inr a)
    | inr b ↦ inr b
  ]

  pub All-In : (P : A → Type 0) (x : A) (xs : List A) → All P xs → In x xs → P x
  All-In P x [] a h = elim h [ ]
  All-In P x (y ∷ ys) a (inl e) = rw e a.0
  All-In P x (y ∷ ys) a (inr h) = All-In P x ys a.1 h

  pub In-All : {P : A → Type 0} (xs : List A) → ((x : A) → In x xs → P x) → All P xs
  In-All [] f = tt
  In-All (x ∷ xs) f = (f x (inl refl), In-All xs (λ y h. f y (inr h)))

  -- The first hit of `next` passes the test, and all before it fail.
  pub find-eq_some :
      (p : A → Bool) (xs : List A) (x : A) → find p xs ≡ some x → In x xs × (p x ≡ true)
  find-eq_some p [] x h = cc
  find-eq_some p (y ∷ ys) x h = elim (Bool-cases (p y)) [
    | inl e ↦
        let h' : some y ≡ some x = rw e at h in
        (inl (some-injective x y (sym h')), ap p (some-injective x y (sym h')) ∙ e)
    | inr e ↦ let (a, b) = find-eq_some p ys x (rw e at h) in (inr a, b)
  ]

  pub find-eq_none :
      (p : A → Bool) (xs : List A) → find p xs ≡ none → (x : A) → In x xs → p x ≡ false
  find-eq_none p [] h x m = elim m [ ]
  find-eq_none p (y ∷ ys) h x m = elim (Bool-cases (p y)) [
    | inl e ↦ let h' : some y ≡ none = rw e at h in cc
    | inr e ↦ elim m [ inl q ↦ ap p q ∙ e | inr r ↦ find-eq_none p ys (rw e at h) x r ]
  ]

  pub length-append : (xs ys : List A) → length (xs ++ ys) ≡ length xs + length ys
  length-append [] ys = omega arith
  length-append (x ∷ xs) ys = omega (arith, length-append xs ys)

  pub length-take_le : (n : ℕ) (xs : List A) → length (take n xs) ≤ n
  length-take_le zero xs = omega arith
  length-take_le (suc n) [] = omega arith
  length-take_le (suc n) (x ∷ xs) = omega (arith, length-take_le n xs)

  pub In-take : (n : ℕ) (x : A) (xs : List A) → In x (take n xs) → In x xs
  In-take zero x xs h = elim h [ ]
  In-take (suc n) x [] h = elim h [ ]
  In-take (suc n) x (y ∷ ys) (inl e) = inl e
  In-take (suc n) x (y ∷ ys) (inr h) = inr (In-take n x ys h)

  pub get_elem?-lt :
      (xs : List A) (i : ℕ) → i < length xs → (x : A) × (get_elem? xs i ≡ some x) × In x xs
  get_elem?-lt [] i h = absurd (omega arith)
  get_elem?-lt (x ∷ xs) zero h = (x, refl, inl refl)
  get_elem?-lt (x ∷ xs) (suc i) h = let (y, e, m) = get_elem?-lt xs i (omega arith) in (y, e, inr m)

  pub In-get_elem? :
      (x : A) (xs : List A) → In x xs → (i : ℕ) × (i < length xs) × (get_elem? xs i ≡ some x)
  In-get_elem? x [] h = elim h [ ]
  In-get_elem? x (y ∷ ys) (inl e) = (0, omega arith, ap some (sym e))
  In-get_elem? x (y ∷ ys) (inr h) = let (i, l, e) = In-get_elem? x ys h in (suc i, omega arith, e)

-- A list of no item, of one, or of more.
pub List-cases {ℓ} :
    {A : Type ℓ} (l : List A)
    → (l ≡ []) ⊎ ((a : A) × (l ≡ a ∷ [])) ⊎ ((a : A) × (b : A) × (r : List A) × (l ≡ a ∷ b ∷ r))
List-cases [] = inl refl
List-cases (a ∷ []) = inr (inl (a, refl))
List-cases (a ∷ b ∷ r) = inr (inr (a, b, r, refl))

module _ ⦃e : Eq String⦄ where
  pub contains-In : (xs : List String) (x : String) → contains xs x ≡ true → In x xs
  contains-In [] x h = cc
  contains-In (y ∷ ys) x h = ground (arith, contains-In ys x)

  pub In-contains : (xs : List String) (x : String) → In x xs → contains xs x ≡ true
  In-contains [] x h = elim h [ ]
  In-contains (y ∷ ys) x (inl p) = ground arith
  In-contains (y ∷ ys) x (inr h) = ground (arith, In-contains ys x h)

pub First-cases {ℓ} : {A : Type ℓ} (l : List A) → (l ≡ []) ⊎ ((a : A) × (r : List A) × (l ≡ a ∷ r))
First-cases [] = inl refl
First-cases (a ∷ r) = inr (a, r, refl)

module _ {A : Type 0} where
  pub all-In : (p : A → Bool) (xs : List A) → all p xs ≡ true → (x : A) → In x xs → p x ≡ true
  all-In p [] h x m = elim m [ ]
  all-In p (y ∷ ys) h x (inl e) = ground arith
  all-In p (y ∷ ys) h x (inr m) = all-In p ys (ground arith) x m

  pub In-all : (p : A → Bool) (xs : List A) → ((x : A) → In x xs → p x ≡ true) → all p xs ≡ true
  In-all p [] f = refl
  In-all p (y ∷ ys) f = rw (f y (inl refl)) (In-all p ys (λ x m. f x (inr m)))

module _ {A B : Type 0} (f : A → B) where
  pub In-map : (a : A) (xs : List A) → In a xs → In (f a) (map f xs)
  In-map a [] h = elim h [ ]
  In-map a (x ∷ xs) (inl e) = inl (ap f e)
  In-map a (x ∷ xs) (inr h) = inr (In-map a xs h)

  pub map-In : (b : B) (xs : List A) → In b (map f xs) → (a : A) × In a xs × (b ≡ f a)
  map-In b [] h = elim h [ ]
  map-In b (x ∷ xs) (inl e) = (x, inl refl, e)
  map-In b (x ∷ xs) (inr h) = let (a, m, e) = map-In b xs h in (a, inr m, e)
