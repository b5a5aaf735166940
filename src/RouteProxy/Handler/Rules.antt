-- ===== src/RouteProxy/Handler/Rules.antt =====
-- How many requests an action sends upstream: a bound before it pays for what it sends and leaves
-- a bound for what follows.
use orichum.Base.{
  ℕ, ◌+◌, ◌≤◌, Bool, true, false, Option, none, some, nat_eq, string_eq, if◌then◌else◌, arith,
  length,
}
use orichum.Base.Result.{Result, ok, err}
use orichum.RouteProxy.World.{Failure, World, Act, pure, raise, lift, catch, continue, ◌>>=◌}
use orichum.RouteProxy.Handler.{required}

abbrev pub sent_by : {A : Type 0} → (A → ℕ) → Result Failure A × World → ℕ
sent_by q (ok a, w) = length w.sent + q a
sent_by q (err e, w) = length w.sent

pub record Within {A : Type 0} (p : ℕ) (q : A → ℕ) (m : Act A) : Type 0 where
  pub at : (w : World) → sent_by q (m w) ≤ length w.sent + p

module _ {A B : Type 0} where
  pub Within-bind :
      (p : ℕ) (q : A → ℕ) (r : B → ℕ) (m : Act A) (f : A → Act B)
      → Within p q m
      → ((a : A) → Within (q a) r (f a))
      → Within p r (m >>= f)
  unfolding ◌>>=◌
  Within-bind p q r m f km kf = record { at = λ w. go w (m w) (km.at w) }
    where
      go :
          (w : World) (x : Result Failure A × World)
          → sent_by q x ≤ length w.sent + p
          → sent_by r (continue x.0 f x.1) ≤ length w.sent + p
      go w (ok a, v) h = omega (arith, (kf a).at v)
      go w (err e, v) h = h

module _ {A : Type 0} (q : A → ℕ) where
  pub Within-raise : (p : ℕ) (e : Failure) → Within p q (raise e)
  Within-raise p e = record { at = λ w. omega arith }

  pub Within-pure : (a : A) → Within (q a) q (pure a)
  Within-pure a = record { at = λ w. omega arith }

  pub Within-lift : (p : ℕ) (r : Result Failure A) → ((a : A) → q a ≤ p) → Within p q (lift r)
  Within-lift p (ok a) h = record { at = λ w. omega (arith, h a) }
  Within-lift p (err e) h = record { at = λ w. omega arith }

  pub Within-required :
      (p : ℕ) (e : Failure) (o : Option A) → ((a : A) → q a ≤ p) → Within p q (required e o)
  unfolding required
  Within-required p e none h = Within-raise p e
  Within-required p e (some a) h = record { at = λ w. omega (arith, h a) }

  pub Within-if :
      (p : ℕ) (t : Bool) (m n : Act A)
      → Within p q m
      → Within p q n
      → Within p q (if t then m else n)
  Within-if p true m n h k = h
  Within-if p false m n h k = k

-- Actions that send nothing.
abbrev pub Still : {A : Type 0} → Act A → Type 0
Still {A} m = (p : ℕ) → Within p (λ (a : A). p) m

pub Within-weak :
    {A : Type 0} (p p' : ℕ) (q : A → ℕ) (m : Act A) → p ≤ p' → Within p q m → Within p' q m
Within-weak p p' q m le h = record { at = λ w. omega (arith, h.at w) }

pub Within-catch :
    {A : Type 0} (p : ℕ) (m : Act A) → Within p (λ a. 0) m → Within p (λ o. 0) (catch m)
Within-catch {A} p m h = record { at = λ w. go w (m w) (h.at w) }
  where
    go :
        (w : World) (x : Result Failure A × World)
        → sent_by (λ a. 0) x ≤ length w.sent + p
        → length x.1.sent + 0 ≤ length w.sent + p
    go w (ok a, v) l = l
    go w (err e, v) l = omega arith
