-- ===== src/Base/Sort.antt =====
-- Python's `sorted` with a key, which is stable: insertion before the first item that is not
-- smaller.
use mathlib.Core.Path.{◌≡◌, refl, subst}
use mathlib.Core.Logic.{◌≢◌, ◌⊎◌, inl, inr}
use mathlib.Core.Bool.{Bool, true}
use mathlib.Core.List.{List, [], ◌∷◌, Perm}
use mathlib.Core.List.Perm
use orichum.Base.Equality.{if◌then◌else◌, Bool-cases}
use orichum.Base.Lists.{In, All, In-All, All-In}

module _ {A : Type 0} (le : A → A → Bool) where
  unfoldable pub insert_sorted : A → List A → List A
  insert_sorted x [] = x ∷ []
  insert_sorted x (y ∷ ys) = if le x y then x ∷ y ∷ ys else y ∷ insert_sorted x ys

  unfoldable pub sorted : List A → List A
  unfolding insert_sorted
  sorted [] = []
  sorted (x ∷ xs) = insert_sorted x (sorted xs)

  -- Each item is at most all that follow it.
  abbrev pub BelowAll : A → List A → Type 0
  BelowAll x [] = Unit
  BelowAll x (y ∷ ys) = (le x y ≡ true) × BelowAll x ys

  abbrev pub IsSorted : List A → Type 0
  IsSorted [] = Unit
  IsSorted (x ∷ xs) = BelowAll x xs × IsSorted xs

  insert_sorted-perm : (x : A) (xs : List A) → Perm (insert_sorted x xs) (x ∷ xs)
  unfolding insert_sorted
  insert_sorted-perm x [] = Perm.refl _
  insert_sorted-perm x (y ∷ ys) = elim (Bool-cases (le x y)) [
    | inl e ↦ rw e (Perm.refl _)
    | inr e ↦ rw e (Perm.trans (Perm.cons y (insert_sorted-perm x ys)) (Perm.swap x y ys))
  ]

  pub sorted-perm : (xs : List A) → Perm (sorted xs) xs
  unfolding sorted
  sorted-perm [] = Perm.refl _
  sorted-perm (x ∷ xs) =
      Perm.trans (insert_sorted-perm x (sorted xs)) (Perm.cons x (sorted-perm xs))

  insert_sorted-In : (z x : A) (xs : List A) → In z (insert_sorted x xs) → (z ≡ x) ⊎ In z xs
  unfolding insert_sorted
  insert_sorted-In z x [] h = h
  insert_sorted-In z x (y ∷ ys) h = elim (Bool-cases (le x y)) [
    | inl e ↦ rw e at h
    | inr e ↦ elim (let h' : (z ≡ y) ⊎ In z (insert_sorted x ys) = rw e at h in h') [
      | inl q ↦ inr (inl q)
      | inr r ↦ elim (insert_sorted-In z x ys r) [ inl a ↦ inl a | inr b ↦ inr (inr b) ]
    ]
  ]

  In-insert_sorted : (z x : A) (xs : List A) → (z ≡ x) ⊎ In z xs → In z (insert_sorted x xs)
  unfolding insert_sorted
  In-insert_sorted z x [] h = h
  In-insert_sorted z x (y ∷ ys) h = elim (Bool-cases (le x y)) [
    | inl e ↦ rw e h
    | inr e ↦ rw e (elim h [
      | inl a ↦ inr (In-insert_sorted z x ys (inl a))
      | inr (inl b) ↦ inl b
      | inr (inr c) ↦ inr (In-insert_sorted z x ys (inr c))
    ])
  ]

  pub sorted-In : (z : A) (xs : List A) → In z (sorted xs) → In z xs
  unfolding sorted
  sorted-In z [] h = h
  sorted-In z (x ∷ xs) h = elim (insert_sorted-In z x (sorted xs) h) [
    | inl a ↦ inl a
    | inr b ↦ inr (sorted-In z xs b)
  ]

  pub In-sorted : (z : A) (xs : List A) → In z xs → In z (sorted xs)
  unfolding sorted
  In-sorted z [] h = h
  In-sorted z (x ∷ xs) (inl a) = In-insert_sorted z x (sorted xs) (inl a)
  In-sorted z (x ∷ xs) (inr b) = In-insert_sorted z x (sorted xs) (inr (In-sorted z xs b))

  module _ (total : (a b : A) → (le a b ≡ true) ⊎ (le b a ≡ true))
      (trans : (a b c : A) → le a b ≡ true → le b c ≡ true → le a c ≡ true) where
    BelowAll-trans : (x y : A) (ys : List A) → le x y ≡ true → BelowAll y ys → BelowAll x ys
    BelowAll-trans x y [] h b = tt
    BelowAll-trans x y (z ∷ zs) h b = (trans x y z h b.0, BelowAll-trans x y zs h b.1)

    insert_sorted-BelowAll :
        (y x : A) (ys : List A) → le y x ≡ true → BelowAll y ys → BelowAll y (insert_sorted x ys)
    unfolding insert_sorted
    insert_sorted-BelowAll y x [] h b = (h, tt)
    insert_sorted-BelowAll y x (z ∷ zs) h b = elim (Bool-cases (le x z)) [
      | inl e ↦ rw e (h, b)
      | inr e ↦ rw e (b.0, insert_sorted-BelowAll y x zs h b.1)
    ]

    insert_sorted-IsSorted : (x : A) (ys : List A) → IsSorted ys → IsSorted (insert_sorted x ys)
    unfolding insert_sorted
    insert_sorted-IsSorted x [] s = (tt, tt)
    insert_sorted-IsSorted x (y ∷ ys) s = elim (Bool-cases (le x y)) [
      | inl e ↦ rw e ((e, BelowAll-trans x y ys e s.0), s)
      | inr e ↦ rw e (
        insert_sorted-BelowAll y x ys (elim (total x y) [ inl p ↦ cc | inr q ↦ q ]) s.0,
        insert_sorted-IsSorted x ys s.1,
      )
    ]

    pub sorted-IsSorted : (xs : List A) → IsSorted (sorted xs)
    unfolding sorted
    sorted-IsSorted [] = tt
    sorted-IsSorted (x ∷ xs) = insert_sorted-IsSorted x (sorted xs) (sorted-IsSorted xs)

  pub sorted-All : (P : A → Type 0) (xs : List A) → All P xs → All P (sorted xs)
  sorted-All P xs h = In-All (sorted xs) (λ z m. All-In P z xs h (sorted-In z xs m))

  pub sorted-given : (xs : List A) → xs ≢ [] → sorted xs ≢ []
  sorted-given [] n e = n refl
  sorted-given (x ∷ xs) n e = subst (In x) e (In-sorted x (x ∷ xs) (inl refl))
