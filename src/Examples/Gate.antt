-- ===== src/Examples/Gate.antt =====
-- The attestation gate's theorems at a run in which a check is overtaken by an invalidation.
use orichum.Base.{ℕ, ◌≡◌, ◌≢◌, ◌⊎◌, refl, some, nat_eq}
use orichum.AttestationGate.{
  outside, returned, waiting, checking, look, enter, settle, invalidate, is_fresh, System, moved,
  start, enters, Step, Steps, here, then_step,
}
use orichum.AttestationGate.Progress.{waiting-proceeds, looked, WaitsFor}
use orichum.AttestationGate.Exclusion.{IsExclusive, reachable-IsExclusive, invalidated-unused}

abbrev begun : System
begun = moved 1 (enter 5 start.gate) start

run : Steps 30 start begun
run = then_step here (enters 1 5 refl)

begun_checks : begun.phase 1 ≡ checking 0
unfolding enter look is_fresh nat_eq
begun_checks = refl

reachable-IsExclusive_example : IsExclusive begun
reachable-IsExclusive_example = reachable-IsExclusive 30 begun run

invalidated-unused_example : (settle 30 9 0 (some 77) (invalidate begun.gate)).0 ≢ returned
invalidated-unused_example =
    invalidated-unused 30 1 0 9 (some 77) begun (record begun { gate = invalidate begun.gate }) run
      begun_checks here

-- A second thread waits for the first one's check.
abbrev joined : System
joined = moved 2 (enter 6 begun.gate) begun

joined_waits : joined.phase 2 ≡ waiting 0
unfolding enter look is_fresh nat_eq
joined_waits = refl

outside_before : begun.phase 2 ≡ outside
unfolding enter look is_fresh nat_eq
outside_before = refl

waiting-proceeds_example :
    ((later : ℕ)
      → Step 30 joined (looked 2 0 later joined)
        × ((o : ℕ) → (looked 2 0 later joined).phase 2 ≢ waiting o))
    ⊎ ((j : ℕ) × (g : ℕ) × WaitsFor 30 joined 2 0 j g)
waiting-proceeds_example =
    waiting-proceeds 30 joined 2 0 (then_step run (enters 2 6 outside_before)) joined_waits
