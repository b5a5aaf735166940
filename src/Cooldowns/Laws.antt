-- ===== src/Cooldowns/Laws.antt =====
-- A model is cooling exactly from a trip until `seconds` later, or until it is cleared.
use orichum.Base.{
  ℕ, ◌+◌, ◌≤◌, String, ltb, if◌then◌else◌, none, some, string_eq, ◌≡◌, ◌==◌, arith, List, [], ◌∷◌,
  refl, ◌⊎◌, inl, ◌∙◌,
}
use orichum.Base.Dict.{lookup, lookup-insert, lookup-erase}
use orichum.Cooldowns.{Cooldowns, active, trip, clear}

-- The calls that the proxy makes, each at its time.
pub data Call : Type 0 where
  ask tripped : String → ℕ → Call
  cleared : String → Call

unfoldable pub run : Cooldowns → List Call → Cooldowns
run c [] = c
run c (ask m t ∷ calls) = run (active m t c).1 calls
run c (tripped m t ∷ calls) = run (trip m t c) calls
run c (cleared m ∷ calls) = run (clear m c) calls

-- The time until which a model cools, from the calls alone: its last trip that no clear follows.
unfoldable pub deadline : ℕ → String → ℕ → List Call → ℕ
deadline seconds model d [] = d
deadline seconds model d (ask m t ∷ calls) = deadline seconds model d calls
deadline seconds model d (tripped m t ∷ calls) =
    deadline seconds model (if m == model then t + seconds else d) calls
deadline seconds model d (cleared m ∷ calls) =
    deadline seconds model (if m == model then 0 else d) calls

-- The clock does not run backwards, from `t` on and up to `now`.
pub data Ordered (now : ℕ) : ℕ → List Call → Type 0 where
  done : (t : ℕ) → t ≤ now → Ordered now t []
  asked :
      {t : ℕ} {calls : List Call} (m : String) (u : ℕ)
      → t ≤ u
      → Ordered now u calls
      → Ordered now t (ask m u ∷ calls)
  trips :
      {t : ℕ} {calls : List Call} (m : String) (u : ℕ)
      → t ≤ u
      → Ordered now u calls
      → Ordered now t (tripped m u ∷ calls)
  clears :
      {t : ℕ} {calls : List Call} (m : String)
      → Ordered now t calls
      → Ordered now t (cleared m ∷ calls)

abbrev until_of : String → Cooldowns → ℕ
until_of model c = elim (lookup model c.until) [ none ↦ 0 | some t ↦ t ]

-- The table agrees with the deadline, or both are past, so that the entry may be gone.
abbrev Agrees : String → ℕ → Cooldowns → ℕ → Type 0
Agrees model t c d = (until_of model c ≡ d) ⊎ (until_of model c ≤ t) × (d ≤ t)

module _ (model : String) where
  ask-Agrees :
      (m : String) (t u : ℕ) (c : Cooldowns) (d : ℕ)
      → t ≤ u
      → Agrees model t c d
      → Agrees model u (active m u c).1 d
  unfolding active
  ask-Agrees m t u c d le h = ground (arith, lookup-erase model m c.until)

  trip-Agrees :
      (m : String) (t u : ℕ) (c : Cooldowns) (d : ℕ)
      → t ≤ u
      → Agrees model t c d
      → Agrees model u (trip m u c) (if m == model then u + c.seconds else d)
  unfolding trip
  trip-Agrees m t u c d le h = ground (arith, lookup-insert model m (u + c.seconds) c.until)

  clear-Agrees :
      (m : String) (t : ℕ) (c : Cooldowns) (d : ℕ)
      → Agrees model t c d
      → Agrees model t (clear m c) (if m == model then 0 else d)
  unfolding clear
  clear-Agrees m t c d h = ground (arith, lookup-erase model m c.until)

  seconds-active : (m : String) (u : ℕ) (c : Cooldowns) → (active m u c).1.seconds ≡ c.seconds
  unfolding active
  seconds-active m u c = ground arith

  seconds-trip : (m : String) (u : ℕ) (c : Cooldowns) → (trip m u c).seconds ≡ c.seconds
  unfolding trip
  seconds-trip m u c = refl

  seconds-clear : (m : String) (c : Cooldowns) → (clear m c).seconds ≡ c.seconds
  unfolding clear
  seconds-clear m c = refl

  active-Agrees :
      (now t : ℕ) (c : Cooldowns) (d : ℕ)
      → t ≤ now
      → Agrees model t c d
      → (active model now c).0 ≡ ltb now d
  unfolding active
  active-Agrees now t c d le h = ground arith

  run-active :
      (now t : ℕ) (calls : List Call) (c : Cooldowns) (d : ℕ)
      → Ordered now t calls
      → Agrees model t c d
      → (active model now (run c calls)).0 ≡ ltb now (deadline c.seconds model d calls)
  unfolding run deadline
  run-active now t [] c d (done _ le) h = active-Agrees now t c d le h
  run-active now t (ask m u ∷ calls) c d (asked _ _ le o) h =
      run-active now u calls (active m u c).1 d o (ask-Agrees m t u c d le h)
      ∙ rw (seconds-active m u c)
  run-active now t (tripped m u ∷ calls) c d (trips _ _ le o) h =
      run-active now u calls (trip m u c) _ o (trip-Agrees m t u c d le h) ∙ rw (seconds-trip m u c)
  run-active now t (cleared m ∷ calls) c d (clears _ o) h =
      run-active now t calls (clear m c) _ o (clear-Agrees m t c d h) ∙ rw (seconds-clear m c)

-- Whatever calls were made from an empty table on, on a clock that does not go back, a model is
-- cooling at `now` exactly if `now` is before the end of its last trip that no clear follows.
pub active_iff_deadline :
    (seconds now : ℕ) (model : String) (calls : List Call)
    → Ordered now 0 calls
    → (active model now (run (record { seconds = seconds; until = [] }) calls)).0
      ≡ ltb now (deadline seconds model 0 calls)
active_iff_deadline seconds now model calls o =
    run-active model now 0 calls _ 0 o (inl (lookup_nil model))
  where
    lookup_nil : (m : String) → until_of m (record { seconds = seconds; until = [] }) ≡ 0
    lookup_nil m = unfold lookup in refl
