-- ===== src/Base/Result.antt =====
-- Python code that returns or raises, over a type of exceptions.
use mathlib.Core.Path.{◌≡◌, refl}
use mathlib.Core.Logic.{◌⊎◌, inl, inr}
use mathlib.Core.Bool.{Bool, true, false}

pub data Result {ℓ κ} (E : Type κ) (A : Type ℓ) : Type (ℓ ⊔ κ) where
  ok : A → Result E A
  err : E → Result E A

-- `if not test: raise error`
abbrev pub guard {κ} : {E : Type κ} → Bool → E → Result E (Unit {0})
guard false error = err error
guard true error = ok tt

-- What follows a call runs on its value, and not at all where the call raised.
abbrev pub ◌>>=◌ {ℓ κ μ} :
    {E : Type κ} {A : Type ℓ} {B : Type μ} → Result E A → (A → Result E B) → Result E B
err error >>= next = err error
ok value >>= next = next value

abbrev pub ◌>>◌ {ℓ κ} : {E : Type κ} {B : Type ℓ} → Result E (Unit {0}) → Result E B → Result E B
check >> next = check >>= λ done. next

infixl 5 ◌>>=◌ ◌>>◌
pub >>=-eq-ok {ℓ κ μ} :
    {E : Type κ} {A : Type ℓ} {B : Type μ} (call : Result E A) (next : A → Result E B) {value : B}
    → (call >>= next) ≡ ok value
    → (a : A) × (call ≡ ok a) × (next a ≡ ok value)
>>=-eq-ok (err error) next h = cc
>>=-eq-ok (ok a) next h = (a, refl, h)

pub Result-cases {ℓ κ} :
    {E : Type κ} {A : Type ℓ} (r : Result E A) → ((a : A) × (r ≡ ok a)) ⊎ ((e : E) × (r ≡ err e))
Result-cases (ok a) = inl (a, refl)
Result-cases (err e) = inr (e, refl)

pub ok-injective {ℓ κ} :
    {E : Type κ} {A : Type ℓ} {a b : A} → ◌≡◌ {A = Result E A} (ok a) (ok b) → a ≡ b
ok-injective h = cc
