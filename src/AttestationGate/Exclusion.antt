-- ===== src/AttestationGate/Exclusion.antt =====
-- At most one thread checks at a time, and a check that began before an invalidation is not used.
use orichum.Base.{ℕ, zero, suc, ◌≤◌, ◌<◌, true, none, some, nat_eq, ◌≡◌, ◌≢◌, arith}
use orichum.AttestationGate.{
  Gate, outside, returned, checking, Verdict, is_fresh, look, enter, refused, settle, invalidate,
  System, moved, start, Step, enters, looks, settles, leaves, invalidates, Steps, here, then_step,
}

pub record IsExclusive (s : System) : Type 0 where
  pub only : (i j g h : ℕ) → s.phase i ≡ checking g → s.phase j ≡ checking h → i ≡ j
  pub busy : (i g : ℕ) → s.phase i ≡ checking g → s.gate.refreshing ≡ true
  pub begun : (i g : ℕ) → s.phase i ≡ checking g → g ≤ s.gate.generation

look-IsExclusive :
    (i observed now : ℕ) (s : System)
    → IsExclusive s
    → IsExclusive (moved i (look observed now s.gate) s)
unfolding look is_fresh
look-IsExclusive i observed now s h = record {
  only = λ a b g k p q. ground (arith, h.only a b g k, h.busy a g, h.busy b k);
  busy = λ a g p. ground (arith, h.busy a g);
  begun = λ a g p. ground (arith, h.begun a g);
}

settle-IsExclusive :
    (ttl i refresh now : ℕ) (verdict : Verdict) (s : System)
    → s.phase i ≡ checking refresh
    → IsExclusive s
    → IsExclusive (moved i (settle ttl now refresh verdict s.gate) s)
unfolding settle refused
settle-IsExclusive ttl i refresh now verdict s e h = record {
  only = λ a b g k p q. ground (arith, h.only a b g k);
  busy = λ a g p. ground (arith, h.only a i g refresh);
  begun = λ a g p. ground (arith, h.begun a g, h.only a i g refresh);
}

leave-IsExclusive : (i : ℕ) (s : System) → IsExclusive s → IsExclusive (moved i (outside, s.gate) s)
leave-IsExclusive i s h = record {
  only = λ a b g k p q. ground (arith, h.only a b g k);
  busy = λ a g p. ground (arith, h.busy a g);
  begun = λ a g p. ground (arith, h.begun a g);
}

invalidate-IsExclusive :
    (s : System) → IsExclusive s → IsExclusive (record s { gate = invalidate s.gate })
unfolding invalidate
invalidate-IsExclusive s h = record {
  only = h.only;
  busy = h.busy;
  begun = λ a g p. omega (arith, h.begun a g p);
}

Step-IsExclusive : (ttl : ℕ) (s t : System) → Step ttl s t → IsExclusive s → IsExclusive t
unfolding enter
Step-IsExclusive ttl s _ (enters i now e) h = look-IsExclusive i s.gate.generation now s h
Step-IsExclusive ttl s _ (looks i observed now e) h = look-IsExclusive i observed now s h
Step-IsExclusive ttl s _ (settles i refresh now verdict e) h =
    settle-IsExclusive ttl i refresh now verdict s e h
Step-IsExclusive ttl s _ (leaves i e) h = leave-IsExclusive i s h
Step-IsExclusive ttl s _ invalidates h = invalidate-IsExclusive s h

start-IsExclusive : IsExclusive start
start-IsExclusive = record { only = λ i j g h p q. cc; busy = λ i g p. cc; begun = λ i g p. cc }

-- Whatever the threads do from the start, at most one thread checks the service at a time, and while
-- one does, the gate is marked as refreshing and has at least the generation that the check began in.
pub reachable-IsExclusive : (ttl : ℕ) (s : System) → Steps ttl start s → IsExclusive s
reachable-IsExclusive ttl _ here = start-IsExclusive
reachable-IsExclusive ttl s (then_step {t} steps step) =
    Step-IsExclusive ttl t s step (reachable-IsExclusive ttl t steps)

Step-generation : (ttl : ℕ) (s t : System) → Step ttl s t → s.gate.generation ≤ t.gate.generation
unfolding enter look is_fresh settle refused invalidate
Step-generation ttl s _ (enters i now e) = ground arith
Step-generation ttl s _ (looks i observed now e) = ground arith
Step-generation ttl s _ (settles i refresh now verdict e) = ground arith
Step-generation ttl s _ (leaves i e) = omega arith
Step-generation ttl s _ invalidates = omega arith

Steps-generation : (ttl : ℕ) (s t : System) → Steps ttl s t → s.gate.generation ≤ t.gate.generation
Steps-generation ttl s _ here = omega arith
Steps-generation ttl s t (then_step {t = u} steps step) =
    omega (arith, Steps-generation ttl s u steps, Step-generation ttl u t step)

settle-stale :
    (ttl now refresh : ℕ) (verdict : Verdict) (gate : Gate)
    → refresh < gate.generation
    → (settle ttl now refresh verdict gate).0 ≢ returned
unfolding settle refused
settle-stale ttl now refresh none gate le e = cc
settle-stale ttl now refresh (some zero) gate le e = cc
settle-stale ttl now refresh (some (suc pid)) gate le e = ground arith

-- Where an invalidation falls into a thread's check, the thread does not return on that check,
-- whatever the verdict, the time and the steps of the threads since.
pub invalidated-unused :
    (ttl i refresh now : ℕ) (verdict : Verdict) (s t : System)
    → Steps ttl start s
    → s.phase i ≡ checking refresh
    → Steps ttl (record s { gate = invalidate s.gate }) t
    → (settle ttl now refresh verdict t.gate).0 ≢ returned
unfolding invalidate
invalidated-unused ttl i refresh now verdict s t before e after =
    settle-stale ttl now refresh verdict t.gate (
      omega (
        arith,
        (reachable-IsExclusive ttl s before).begun i refresh e,
        Steps-generation ttl (record s { gate = invalidate s.gate }) t after,
      ))
