-- ===== src/AttestationGate.antt =====
-- integrations/common/route_proxy.py, `AttestationGate`: the shared result of the ownership check,
-- and the threads that ask for it. Each block under the condition's lock is one operation here; a
-- thread that waits for it is woken at any time and looks again. The clock is the argument `now`.
pub mod Exclusion
pub mod Progress
use orichum.Base.{
  ℕ, zero, suc, ◌+◌, Bool, true, false, not, ◌&&◌, Option, none, some, ltb, ◌==◌, nat_eq, ◌≡◌,
  if◌then◌else◌,
}

pub record Gate : Type 0 where
  pub verified_until : ℕ
  pub service_pid : Option ℕ
  pub refreshing : Bool
  pub generation : ℕ

-- Where a thread stands: outside `verify`, waiting for another's check since the generation that it
-- observed, checking since a generation, or through `verify`, which returned or raised.
pub data Phase : Type 0 where
  outside returned raised : Phase
  waiting checking : ℕ → Phase

abbrev pub new_gate : Gate
new_gate = record { verified_until = 0; service_pid = none; refreshing = false; generation = 0 }

-- The verdict of `full_verifier`: `none` where it raises; a process ID of 0 is refused.
abbrev pub Verdict : Type 0
Verdict = Option ℕ

-- `self._service_pid is not None and self._verified_until > self.clock()`
unfoldable pub is_fresh : ℕ → Gate → Bool
is_fresh now gate = elim gate.service_pid [ none ↦ false | some pid ↦ ltb now gate.verified_until ]

-- The first block of the loop, from the wait on.
unfoldable pub look : ℕ → ℕ → Gate → Phase × Gate
look observed now gate =
    if gate.refreshing
    then (waiting observed, gate)
    else if not (gate.generation == observed)
        && elim gate.service_pid [ none ↦ true | some pid ↦ false ]
    then (raised, gate)
    else if is_fresh now gate
    then (returned, gate)
    else (checking gate.generation, record gate { refreshing = true })

-- The loop's start: the generation is observed on entry.
unfoldable pub enter : ℕ → Gate → Phase × Gate
enter now gate = look gate.generation now gate

unfoldable pub refused : Gate → Phase × Gate
refused gate = (
  raised,
  record {
    verified_until = 0;
    service_pid = none;
    refreshing = false;
    generation = gate.generation + 1;
  },
)

-- The block after the check: `outside` is the `continue`, which enters the loop again.
unfoldable pub settle : ℕ → ℕ → ℕ → Verdict → Gate → Phase × Gate
settle ttl now refresh none gate = refused gate
settle ttl now refresh (some zero) gate = refused gate
settle ttl now refresh (some (suc pid)) gate =
    if not (gate.generation == refresh) then (outside, record gate { refreshing = false }) else (
      returned,
      record {
        verified_until = now + ttl;
        service_pid = some (suc pid);
        refreshing = false;
        generation = gate.generation + 1;
      },
    )

unfoldable pub invalidate : Gate → Gate
invalidate gate = record gate {
  verified_until = 0;
  service_pid = none;
  generation = gate.generation + 1;
}

-- The gate and the threads, by number.
pub record System : Type 0 where
  pub gate : Gate
  pub phase : ℕ → Phase

abbrev pub set : ℕ → Phase → (ℕ → Phase) → ℕ → Phase
set i p phase j = if j == i then p else phase j

-- Thread `i` has done an operation, whose result is given.
abbrev pub moved : ℕ → Phase × Gate → System → System
moved i r s = record { gate = r.1; phase = set i r.0 s.phase }

abbrev pub start : System
start = record { gate = new_gate; phase = λ i. outside }

-- One operation of one thread, or an invalidation, which any thread may do.
pub data Step (ttl : ℕ) : System → System → Type 0 where
  enters :
      {s : System} (i now : ℕ) → s.phase i ≡ outside → Step ttl s (moved i (enter now s.gate) s)
  looks :
      {s : System} (i observed now : ℕ)
      → s.phase i ≡ waiting observed
      → Step ttl s (moved i (look observed now s.gate) s)
  settles :
      {s : System} (i refresh now : ℕ) (verdict : Verdict)
      → s.phase i ≡ checking refresh
      → Step ttl s (moved i (settle ttl now refresh verdict s.gate) s)
  leaves : {s : System} (i : ℕ) → s.phase i ≡ returned → Step ttl s (moved i (outside, s.gate) s)
  invalidates : {s : System} → Step ttl s (record s { gate = invalidate s.gate })

pub data Steps (ttl : ℕ) (s : System) : System → Type 0 where
  here : Steps ttl s s
  then_step : {t u : System} → Steps ttl s t → Step ttl t u → Steps ttl s u
