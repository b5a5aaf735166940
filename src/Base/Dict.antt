-- ===== src/Base/Dict.antt =====
-- Python's `dict`, as its entries in insertion order.
use orichum.Base.Equality.{Eq, ◌==◌, ==_iff, if◌then◌else◌, Bool-cases}
use orichum.Base.Lists.{All}
use mathlib.Core.Path.{◌≡◌, refl, sym, subst}
use mathlib.Core.Logic.{inl, inr}
use mathlib.Core.Bool.{Bool, true, false}
use mathlib.Core.Option.{Option, none, some}
use mathlib.Core.List.{List, [], ◌∷◌}
use native.Mathlib.Omega.{arith}

abbrev pub Dict {ℓ κ} : Type ℓ → Type κ → Type (ℓ ⊔ κ)
Dict K V = List (K × V)

abbrev pub keys {ℓ κ} : {K : Type ℓ} {V : Type κ} → Dict K V → List K
keys [] = []
keys ((k, v) ∷ d) = k ∷ keys d

abbrev pub values {ℓ κ} : {K : Type ℓ} {V : Type κ} → Dict K V → List V
values [] = []
values ((k, v) ∷ d) = v ∷ values d

module _ {ℓ κ} {K : Type ℓ} {V : Type κ} ⦃e : Eq K⦄ where
  -- `d.get(k)`
  unfoldable pub lookup : K → Dict K V → Option V
  lookup k [] = none
  lookup k ((j, v) ∷ d) = if k == j then some v else lookup k d

  -- `k in d`
  unfoldable pub has_key : K → Dict K V → Bool
  has_key k [] = false
  has_key k ((j, v) ∷ d) = if k == j then true else has_key k d

  -- `d[k] = v`: a key that is there keeps its place.
  unfoldable pub insert : K → V → Dict K V → Dict K V
  insert k v [] = (k, v) ∷ []
  insert k v ((j, w) ∷ d) = if k == j then (j, v) ∷ d else (j, w) ∷ insert k v d

  -- `d.pop(k, None)`
  unfoldable pub erase : K → Dict K V → Dict K V
  erase k [] = []
  erase k ((j, w) ∷ d) = if k == j then erase k d else (j, w) ∷ erase k d

  -- Every key stands once.
  abbrev pub NodupKeys : Dict K V → Type κ
  NodupKeys [] = Unit
  NodupKeys ((k, v) ∷ d) = (lookup k d ≡ none) × NodupKeys d

  pub lookup-insert :
      (j k : K) (v : V) (d : Dict K V)
      → lookup j (insert k v d) ≡ (if j == k then some v else lookup j d)
  unfolding lookup insert
  lookup-insert j k v [] = ground arith
  lookup-insert j k v (x ∷ d) = ground (arith, lookup-insert j k v d)

  pub lookup-erase :
      (j k : K) (d : Dict K V) → lookup j (erase k d) ≡ (if j == k then none else lookup j d)
  unfolding lookup erase
  lookup-erase j k [] = ground arith
  lookup-erase j k (x ∷ d) = ground (arith, lookup-erase j k d)

  pub insert-NodupKeys : (k : K) (v : V) (d : Dict K V) → NodupKeys d → NodupKeys (insert k v d)
  unfolding lookup insert
  insert-NodupKeys k v [] h = (refl, tt)
  insert-NodupKeys k v ((j, w) ∷ d) h =
      ground (arith, insert-NodupKeys k v d h.1, lookup-insert j k v d)

  pub erase-NodupKeys : (k : K) (d : Dict K V) → NodupKeys d → NodupKeys (erase k d)
  unfolding erase
  erase-NodupKeys k [] h = tt
  erase-NodupKeys k ((j, w) ∷ d) h = ground (arith, erase-NodupKeys k d h.1, lookup-erase j k d)

module _ {K V : Type 0} ⦃e : Eq K⦄ (P : K × V → Type 0) where
  pub insert-All : (k : K) (v : V) (d : Dict K V) → P (k, v) → All P d → All P (insert k v d)
  unfolding insert
  insert-All k v [] h a = (h, tt)
  insert-All k v ((j, w) ∷ d) h a = elim (Bool-cases (k == j)) [
    | inl t ↦ rw t (subst (λ i. P (i, v)) ((==_iff k j).0 t) h, a.1)
    | inr f ↦ rw f (a.0, insert-All k v d h a.1)
  ]

  pub lookup-All : (k : K) (v : V) (d : Dict K V) → All P d → lookup k d ≡ some v → P (k, v)
  unfolding lookup
  lookup-All k v [] a h = cc
  lookup-All k v ((j, w) ∷ d) a h = elim (Bool-cases (k == j)) [
    | inl t ↦
        let same : w ≡ v = ground (arith, h, t) in
        subst (λ i. P (i, v)) (sym ((==_iff k j).0 t)) (subst (λ x. P (j, x)) same a.0)
    | inr f ↦ lookup-All k v d a.1 (ground (arith, h, f))
  ]
