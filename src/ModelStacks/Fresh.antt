-- ===== src/ModelStacks/Fresh.antt =====
-- Candidates with new IDs, one after another: what `seen_ids` is for.
use orichum.Base.{
  String, true, false, ◌≡◌, List, [], ◌∷◌, ◌++◌, arith, map, string_eq, nat_eq, refl, subst, sym,
  ap, ◌∙◌, any, contains,
}
use orichum.Account.Registry.{distinct}
use orichum.ModelStacks.{StackCandidate}
use orichum.ModelStacks.Normalize.{add_ids}

abbrev pub ids : List StackCandidate → List String
ids cs = map (λ c. c.id) cs

-- Each ID is neither among `seen` nor that of an earlier candidate.
abbrev pub Fresh : List String → List StackCandidate → Type 0
Fresh seen [] = Unit
Fresh seen (c ∷ cs) = (contains seen c.id ≡ false) × Fresh (c.id ∷ seen) cs

-- What a parsing step returns: fresh candidates, and the IDs with theirs.
abbrev pub Adds : List String → List StackCandidate → List String → Type 0
Adds seen cs after = Fresh seen cs × (after ≡ add_ids seen cs)

pub add_ids-append :
    (seen : List String) (a b : List StackCandidate)
    → add_ids seen (a ++ b) ≡ add_ids (add_ids seen a) b
unfolding add_ids
add_ids-append seen [] b = refl
add_ids-append seen (c ∷ a) b = add_ids-append (c.id ∷ seen) a b

pub Fresh-append :
    (seen : List String) (a b : List StackCandidate)
    → Fresh seen a
    → Fresh (add_ids seen a) b
    → Fresh seen (a ++ b)
unfolding add_ids
Fresh-append seen [] b f g = g
Fresh-append seen (c ∷ a) b f g = (f.0, Fresh-append (c.id ∷ seen) a b f.1 g)

pub append-Fresh :
    (seen : List String) (a b : List StackCandidate)
    → Fresh seen (a ++ b)
    → Fresh seen a × Fresh (add_ids seen a) b
unfolding add_ids
append-Fresh seen [] b f = (tt, f)
append-Fresh seen (c ∷ a) b f = let (g, h) = append-Fresh (c.id ∷ seen) a b f.1 in ((f.0, g), h)

pub Adds-append :
    (seen middle after : List String) (a b : List StackCandidate)
    → Adds seen a middle
    → Adds middle b after
    → Adds seen (a ++ b) after
Adds-append seen middle after a b (f, e) (g, q) = (
  Fresh-append seen a b f (subst (λ m. Fresh m b) e g),
  q ∙ ap (λ m. add_ids m b) e ∙ sym (add_ids-append seen a b),
)

Fresh-absent :
    (x : String) (seen : List String) (cs : List StackCandidate)
    → contains seen x ≡ true
    → Fresh seen cs
    → contains (ids cs) x ≡ false
Fresh-absent x seen [] h f = refl
Fresh-absent x seen (c ∷ cs) h f = ground (arith, Fresh-absent x (c.id ∷ seen) cs, f.0, f.1)

pub Fresh-distinct :
    (seen : List String) (cs : List StackCandidate) → Fresh seen cs → distinct (ids cs) ≡ true
unfolding distinct
Fresh-distinct seen [] f = refl
Fresh-distinct seen (c ∷ cs) f =
    let absent = Fresh-absent c.id (c.id ∷ seen) cs (ground arith) f.1 in
    ground (arith, absent, Fresh-distinct (c.id ∷ seen) cs f.1)

absent-cons :
    (x : String) (seen : List String) (cs : List StackCandidate)
    → contains (ids cs) x ≡ false
    → any (λ c. contains seen c.id) cs ≡ false
    → any (λ c. contains (x ∷ seen) c.id) cs ≡ false
absent-cons x seen [] h a = refl
absent-cons x seen (c ∷ cs) h a = ground (arith, absent-cons x seen cs)

pub distinct-Fresh :
    (seen : List String) (cs : List StackCandidate)
    → distinct (ids cs) ≡ true
    → any (λ c. contains seen c.id) cs ≡ false
    → Fresh seen cs
unfolding distinct
distinct-Fresh seen [] d a = tt
distinct-Fresh seen (c ∷ cs) d a = (
  ground arith,
  distinct-Fresh (c.id ∷ seen) cs (ground arith)
      (absent-cons c.id seen cs (ground arith) (ground arith)),
)

absent-left :
    (x : String) (a b : List StackCandidate)
    → contains (ids (a ++ b)) x ≡ false
    → contains (ids a) x ≡ false
absent-left x [] b h = refl
absent-left x (c ∷ a) b h = ground (arith, absent-left x a b)

-- IDs that differ in a list differ in its two parts.
pub distinct-parts :
    (a b : List StackCandidate)
    → distinct (ids (a ++ b)) ≡ true
    → (distinct (ids a) ≡ true) × (distinct (ids b) ≡ true)
unfolding distinct
distinct-parts [] b h = (refl, h)
distinct-parts (c ∷ a) b h =
    let (p, q) = distinct-parts a b (ground arith) in (ground (arith, absent-left c.id a b), q)
