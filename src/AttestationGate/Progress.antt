-- ===== src/AttestationGate/Progress.antt =====
-- A thread that waits for another's check can always go on: the check that it waits for is under way
-- in some thread, and its end lets the waiting thread through.
use orichum.Base.{
  ℕ, true, false, none, some, zero, suc, ◌==◌, nat_eq, ◌≡◌, ◌≢◌, refl, arith, Bool-cases, inl, inr,
  ◌⊎◌, ◌∙◌, sym,
}
use orichum.AttestationGate.Exclusion.{reachable-IsExclusive}
use orichum.AttestationGate.{
  Gate, Phase, outside, waiting, checking, Verdict, is_fresh, look, enter, refused, settle,
  invalidate, System, set, moved, start, Step, enters, looks, settles, leaves, invalidates, Steps,
  here, then_step,
}

-- Some thread checks.
abbrev Busy : System → Type 0
Busy s = (j : ℕ) × (g : ℕ) × (s.phase j ≡ checking g)

-- A refreshing gate has a thread that checks.
abbrev IsAttended : System → Type 0
IsAttended s = s.gate.refreshing ≡ true → Busy s

-- A step of a thread that does not check leaves the checking thread where it is.
kept :
    (i : ℕ) (r : Phase × Gate) (s : System)
    → ((g : ℕ) → s.phase i ≢ checking g)
    → Busy s
    → Busy (moved i r s)
kept i r s free (j, g, e) = elim (Bool-cases (j == i)) [
  | inl same ↦ absurd (free g (ground arith))
  | inr other ↦ (j, g, rw other e)
]

set-same : (i : ℕ) (p : Phase) (f : ℕ → Phase) → set i p f i ≡ p
set-same i p f = ground arith

set-other : (i j : ℕ) (p : Phase) (f : ℕ → Phase) → i ≢ j → set i p f j ≡ f j
set-other i j p f ne = ground arith

look-checks :
    (observed now : ℕ) (gate : Gate)
    → gate.refreshing ≡ false
    → (look observed now gate).1.refreshing ≡ true
    → (look observed now gate).0 ≡ checking gate.generation
unfolding look is_fresh
look-checks observed now gate off on = ground arith

look-IsAttended :
    (i observed now : ℕ) (s : System)
    → ((g : ℕ) → s.phase i ≢ checking g)
    → IsAttended s
    → IsAttended (moved i (look observed now s.gate) s)
look-IsAttended i observed now s free h busy = elim (Bool-cases s.gate.refreshing) [
  | inl on ↦ kept i (look observed now s.gate) s free (h on)
  | inr off ↦ (
    i,
    s.gate.generation,
    set-same i (look observed now s.gate).0 s.phase ∙ look-checks observed now s.gate off busy,
  )
]

settled :
    (ttl now g : ℕ) (v : Verdict) (gate : Gate) → (settle ttl now g v gate).1.refreshing ≡ false
unfolding settle refused
settled ttl now g none gate = refl
settled ttl now g (some zero) gate = refl
settled ttl now g (some (suc pid)) gate = ground arith

Step-IsAttended : (ttl : ℕ) (s t : System) → Step ttl s t → IsAttended s → IsAttended t
unfolding enter invalidate
Step-IsAttended ttl s _ (enters i now e) h = look-IsAttended i s.gate.generation now s (λ g f. cc) h
Step-IsAttended ttl s _ (looks i observed now e) h = look-IsAttended i observed now s (λ g f. cc) h
Step-IsAttended ttl s _ (settles i g now v e) h = λ busy. let off = settled ttl now g v s.gate in cc
Step-IsAttended ttl s _ (leaves i e) h = λ busy. kept i (outside, s.gate) s (λ g f. cc) (h busy)
Step-IsAttended ttl s _ invalidates h = h

reachable-IsAttended : (ttl : ℕ) (s : System) → Steps ttl start s → IsAttended s
reachable-IsAttended ttl _ here = λ busy. cc
reachable-IsAttended ttl s (then_step {t} steps step) =
    Step-IsAttended ttl t s step (reachable-IsAttended ttl t steps)

-- A look at a gate that no one refreshes does not wait.
look-free :
    (observed now : ℕ) (gate : Gate)
    → gate.refreshing ≡ false
    → (o : ℕ) → (look observed now gate).0 ≢ waiting o
unfolding look is_fresh
look-free observed now gate off o e = ground arith

look-Passes :
    (t : System) (i observed later : ℕ)
    → t.gate.refreshing ≡ false
    → (o : ℕ) → (moved i (look observed later t.gate) t).phase i ≢ waiting o
look-Passes t i observed later off o w =
    look-free observed later t.gate off o
      (sym (set-same i (look observed later t.gate).0 t.phase) ∙ w)

-- The system after thread `j`, which checks since `g`, ended its check, and after the look of thread
-- `i` that follows.
abbrev pub ended : ℕ → ℕ → ℕ → ℕ → Verdict → System → System
ended ttl j g now v s = moved j (settle ttl now g v s.gate) s

abbrev pub looked : ℕ → ℕ → ℕ → System → System
looked i observed later t = moved i (look observed later t.gate) t

-- Thread `i` waits for thread `j` alone: a look before the end of `j`'s check leaves it waiting, a
-- look after it does not.
pub record WaitsFor (ttl : ℕ) (s : System) (i observed j g : ℕ) : Type 0 where
  pub checks : s.phase j ≡ checking g
  pub alone : (k h : ℕ) → s.phase k ≡ checking h → k ≡ j
  pub held : (later : ℕ) → (looked i observed later s).phase i ≡ waiting observed
  pub ends : (now : ℕ) (v : Verdict) → Step ttl s (ended ttl j g now v s)
  pub done : (now h : ℕ) (v : Verdict) → (ended ttl j g now v s).phase j ≢ checking h
  pub looks_again :
      (now later : ℕ) (v : Verdict)
      → Step ttl (ended ttl j g now v s) (looked i observed later (ended ttl j g now v s))
  pub passes :
      (now later : ℕ) (v : Verdict) (o : ℕ)
      → (looked i observed later (ended ttl j g now v s)).phase i ≢ waiting o

settle-done :
    (ttl now g h : ℕ) (v : Verdict) (gate : Gate) → (settle ttl now g v gate).0 ≢ checking h
unfolding settle refused
settle-done ttl now g h none gate = λ e. cc
settle-done ttl now g h (some zero) gate = λ e. cc
settle-done ttl now g h (some (suc pid)) gate = λ e. ground arith

look-held :
    (observed later : ℕ) (gate : Gate)
    → gate.refreshing ≡ true
    → (look observed later gate).0 ≡ waiting observed
unfolding look
look-held observed later gate on = ground arith

-- In every state that the threads can reach, a waiting thread has a way on. Either its next look ends
-- its wait, at any time, or exactly one thread checks. In that case a look before the check's end
-- leaves the thread waiting, and two steps, that end and a look, end its wait, whatever the verdict
-- and the two times are; the thread that checked does not check any more.
pub waiting-proceeds :
    (ttl : ℕ) (s : System) (i observed : ℕ)
    → Steps ttl start s
    → s.phase i ≡ waiting observed
    → ((later : ℕ)
        → Step ttl s (looked i observed later s)
          × ((o : ℕ) → (looked i observed later s).phase i ≢ waiting o))
      ⊎ ((j : ℕ) × (g : ℕ) × WaitsFor ttl s i observed j g)
waiting-proceeds ttl s i observed r e = elim (Bool-cases s.gate.refreshing) [
  | inr off ↦ inl (λ later. (looks i observed later e, look-Passes s i observed later off))
  | inl on ↦
      let (j, g, c) = reachable-IsAttended ttl s r on in
      let stays = λ (now : ℕ) (v : Verdict).
        set-other j i (settle ttl now g v s.gate).0 s.phase (λ same. cc) ∙ e in
      inr (
        j,
        g,
        record {
          checks = c;
          alone = λ k h q. (reachable-IsExclusive ttl s r).only k j h g q c;
          held = λ later.
              set-same i (look observed later s.gate).0 s.phase
              ∙ look-held observed later s.gate on;
          ends = λ now v. settles j g now v c;
          done = λ now h v q.
              settle-done ttl now g h v s.gate
                (sym (set-same j (settle ttl now g v s.gate).0 s.phase) ∙ q);
          looks_again = λ now later v. looks i observed later (stays now v);
          passes = λ now later v.
              look-Passes (ended ttl j g now v s) i observed later (settled ttl now g v s.gate);
        },
      )
]
