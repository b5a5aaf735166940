-- ===== src/StackStore/Locks.antt =====
-- What the locks that may be saved refer to.
use orichum.Base.{
  String, true, List, [], ◌∷◌, ◌≡◌, inl, inr, refl, ◌==◌, ==_iff, string_eq, arith, All, In, all,
  contains, Bool-cases, Option-cases, all-In, contains-In,
}
use orichum.Base.Dict.{Dict, values, lookup, insert, insert-All, lookup-All}
use orichum.Base.Result.{ok}
use orichum.Account.{Account}
use orichum.ModelStacks.{StackCandidate, NormalizedStacks}
use orichum.StackBindings.{StackBindings}
use orichum.StackStore.{
  candidates_in, candidates_by_id, active_by_id, is_compatible, validate_stack_bindings,
}

module _ (all_candidates : List StackCandidate) where
  abbrev IsCandidate : String × StackCandidate → Type 0
  IsCandidate (id, c) = In c all_candidates × (c.id ≡ id)

  candidates_by_id-IsCandidate :
      (cs : List StackCandidate) (d : Dict String StackCandidate)
      → ((c : StackCandidate) → In c cs → In c all_candidates)
      → All IsCandidate d
      → All IsCandidate (candidates_by_id d cs)
  unfolding candidates_by_id
  candidates_by_id-IsCandidate [] d sub h = h
  candidates_by_id-IsCandidate (c ∷ cs) d sub h =
      candidates_by_id-IsCandidate cs (insert c.id c d) (λ x m. sub x (inr m))
        (insert-All IsCandidate c.id c d (sub c (inl refl), refl) h)

module _ (accounts : List Account) where
  abbrev IsActive : String × Account → Type 0
  IsActive (id, a) = In a accounts × (a.state ≡ "active") × (a.id ≡ id)

  active_by_id-IsActive :
      (rest : List Account) (d : Dict String Account)
      → ((a : Account) → In a rest → In a accounts)
      → All IsActive d
      → All IsActive (active_by_id d rest)
  unfolding active_by_id
  active_by_id-IsActive [] d sub h = h
  active_by_id-IsActive (a ∷ rest) d sub h =
      active_by_id-IsActive rest _ (λ b m. sub b (inr m))
        (elim (Bool-cases (a.state == "active")) [
          | inl t ↦ rw t (
              insert-All IsActive a.id a d (sub a (inl refl), (==_iff a.state "active").0 t, refl)
                h)
          | inr f ↦ rw f h
        ])

-- The lock of a candidate of the stacks to an active account that serves one of its providers.
pub record IsLock (v : NormalizedStacks) (accounts : List Account) (lock : String × String)
    : Type 0 where
  pub candidate : StackCandidate
  pub account : Account
  pub of_stacks : In candidate (candidates_in (values v.stacks))
  pub candidate_id : candidate.id ≡ lock.0
  pub registered : In account accounts
  pub active : account.state ≡ "active"
  pub account_id : account.id ≡ lock.1
  pub served : In account.provider candidate.providers

is_compatible-IsLock :
    (v : NormalizedStacks) (accounts : List Account) (lock : String × String)
    → is_compatible
        (candidates_by_id [] (candidates_in (values v.stacks)))
        (active_by_id [] accounts)
        lock
      ≡ true
    → IsLock v accounts lock
unfolding is_compatible
is_compatible-IsLock v accounts (i, j) h =
    let cs = candidates_in (values v.stacks) in
    let candidates = candidates_by_id [] cs in
    let active = active_by_id [] accounts in
    elim (Option-cases (lookup i candidates)) [
      | inl e ↦ ground (arith, h, e)
      | inr (c, e) ↦ elim (Option-cases (lookup j active)) [
        | inl f ↦ ground (arith, h, e, f)
        | inr (a, f) ↦
            let (m, p) =
              lookup-All (IsCandidate cs) i c candidates
                (candidates_by_id-IsCandidate cs cs [] (λ x k. k) tt) e in
            let (r, s, q) =
              lookup-All (IsActive accounts) j a active
                (active_by_id-IsActive accounts accounts [] (λ x k. k) tt) f in
            let provided : contains c.providers a.provider ≡ true = ground (arith, h, e, f) in
            record {
              candidate = c;
              account = a;
              of_stacks = m;
              candidate_id = p;
              registered = r;
              active = s;
              account_id = q;
              served = contains-In c.providers a.provider provided;
            }
      ]
    ]

-- Where the bindings are accepted, each locks a candidate of the stacks to an active account of the
-- registry, with a provider that the candidate allows.
pub validate_stack_bindings-IsLock :
    (v : NormalizedStacks) (bindings : StackBindings) (accounts : List Account)
    (lock : String × String)
    → validate_stack_bindings v bindings accounts ≡ ok tt
    → In lock bindings.candidate_accounts
    → IsLock v accounts lock
unfolding validate_stack_bindings
validate_stack_bindings-IsLock v bindings accounts lock h m =
    let test =
      is_compatible (candidates_by_id [] (candidates_in (values v.stacks)))
        (active_by_id [] accounts) in
    let compatible : all test bindings.candidate_accounts ≡ true = ground (arith, h) in
    is_compatible-IsLock v accounts lock (all-In test bindings.candidate_accounts compatible lock m)
