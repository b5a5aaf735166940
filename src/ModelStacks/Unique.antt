-- ===== src/ModelStacks/Unique.antt =====
-- Where the IDs of all candidates of a document of schema version 2 differ.
use orichum.Base.{
  if◌then◌else◌, All, ◌↔◌, String, true, false, ◌≡◌, List, [], ◌∷◌, ◌++◌, arith, string_eq, nat_eq,
  refl, subst, sym, ap, ℕ, zero, Bool-cases, inl, inr, ◌∙◌, not, any, contains, ◌==◌,
}
use orichum.Base.Dict.{Dict, insert, keys, lookup, lookup-insert}
use orichum.Base.Result.{ok, guard, >>=-eq-ok, ok-injective}
use orichum.Json.{Json, item, str, obj, entries, has_exactly}
use orichum.Account.Registry.{distinct}
use orichum.ModelRouting.{roles, legacy_roles}
use orichum.ModelStacks.{
  ModelDefinition, StackCandidate, Definition, version_2, exact, stack_name, fields_of, items_of,
  model_id, no_stacks, wrong_agents, repeated_id, no_candidates,
}
use orichum.ModelStacks.Normalize.{
  add_ids, candidate_text, candidate, candidates_from, candidate_list, planning_from,
  agent_candidates, scope_candidates, agents_from, add_planning, stack_agents, are_agents,
  parse_stack, stacks_from, parse_stacks,
}
use orichum.ModelStacks.Fresh.{
  ids, distinct-parts, Adds, Adds-append, Fresh-distinct, distinct-Fresh,
}

module _ (models : Dict String ModelDefinition) where
  candidate-Fresh :
      (seen : List String) (v : Json) (r : StackCandidate × List String)
      → candidate models seen v ≡ ok r
      → Adds seen (r.0 ∷ []) r.1
  unfolding candidate add_ids
  candidate-Fresh seen v r h =
      let (d, _, h1) = >>=-eq-ok (exact v ("id" ∷ "model" ∷ "providers" ∷ [])) _ h in
      let (id, _, h2) = >>=-eq-ok (candidate_text (item "id" d)) _ h1 in
      let (_, g, h3) = >>=-eq-ok (guard (not (contains seen id)) repeated_id) _ h2 in
      let new : contains seen id ≡ false = ground (arith, g) in
      let (m, _, h4) = >>=-eq-ok (model_id (item "model" d)) _ h3 in ground (arith, h4, new)

  candidates_from-Fresh :
      (seen : List String) (vs : List Json) (r : List StackCandidate × List String)
      → candidates_from models seen vs ≡ ok r
      → Adds seen r.0 r.1
  unfolding candidates_from add_ids
  candidates_from-Fresh seen [] r h = ground arith
  candidates_from-Fresh seen (v ∷ vs) r h =
      let (first, f_eq, h1) = >>=-eq-ok (candidate models seen v) _ h in
      let (rest, r_eq, h2) = >>=-eq-ok (candidates_from models first.1 vs) _ h1 in
      subst (λ r. Adds seen r.0 r.1) (ok-injective h2)
        (Adds-append seen first.1 rest.1 (first.0 ∷ []) rest.0 (candidate-Fresh seen v first f_eq)
          (candidates_from-Fresh first.1 vs rest r_eq))

  candidate_list-Fresh :
      (seen : List String) (v : Json) (r : List StackCandidate × List String)
      → candidate_list models seen v ≡ ok r
      → Adds seen r.0 r.1
  unfolding candidate_list
  candidate_list-Fresh seen v r h =
      let (vs, _, h1) = >>=-eq-ok (items_of no_candidates v) _ h in
      let (found, f_eq, h2) = >>=-eq-ok (candidates_from models seen vs) _ h1 in
      let fresh = candidates_from-Fresh seen vs found f_eq in ground (arith, h2, fresh)

-- The candidates of all roles.
abbrev pub listed : Dict String (List StackCandidate) → List StackCandidate
listed [] = []
listed ((role, cs) ∷ d) = cs ++ listed d

-- The candidates of a document.
abbrev pub all_candidates : Dict String Definition → List StackCandidate
all_candidates [] = []
all_candidates ((name, s) ∷ d) = (s.controller ++ listed s.agents) ++ all_candidates d

append-nil_right : (l : List StackCandidate) → l ++ [] ≡ l
append-nil_right [] = refl
append-nil_right (c ∷ l) = ap (λ t. c ∷ t) (append-nil_right l)

append_assoc : (a b c : List StackCandidate) → (a ++ b) ++ c ≡ a ++ (b ++ c)
append_assoc [] b c = refl
append_assoc (x ∷ a) b c = ap (λ t. x ∷ t) (append_assoc a b c)

listed-insert :
    (k : String) (v : List StackCandidate) (d : Dict String (List StackCandidate))
    → contains (keys d) k ≡ false
    → listed (insert k v d) ≡ listed d ++ v
unfolding insert
listed-insert k v [] h = append-nil_right v
listed-insert k v ((j, w) ∷ d) h =
    let apart : (k == j) ≡ false = ground arith in
    rw apart
      (ap (λ t. w ++ t) (listed-insert k v d (ground arith)) ∙ sym (append_assoc w (listed d) v))

agent_candidates-insert :
    (k : String) (v : List StackCandidate) (d : Dict String (List StackCandidate))
    → agent_candidates (insert k v d) k ≡ v
unfolding agent_candidates
agent_candidates-insert k v d = ground (arith, lookup-insert k k v d)

nothing_planned : (k : String) → distinct (ids (agent_candidates [] k)) ≡ true
unfolding agent_candidates lookup distinct
nothing_planned k = refl

agent_candidates-cons :
    (k j : String) (cs : List StackCandidate) (d : Dict String (List StackCandidate))
    → agent_candidates ((j, cs) ∷ d) k ≡ (if k == j then cs else agent_candidates d k)
unfolding agent_candidates lookup
agent_candidates-cons k j cs d = ground arith

listed-distinct :
    (k : String) (d : Dict String (List StackCandidate))
    → distinct (ids (listed d)) ≡ true
    → distinct (ids (agent_candidates d k)) ≡ true
unfolding distinct
listed-distinct k [] h = nothing_planned k
listed-distinct k ((j, cs) ∷ d) h =
    let (p, q) = distinct-parts cs (listed d) h in
    let one = agent_candidates-cons k j cs d in
    elim (Bool-cases (k == j)) [
      | inl t ↦
          let here : agent_candidates ((j, cs) ∷ d) k ≡ cs = ground (arith, one, t) in rw here p
      | inr f ↦
          let there : agent_candidates ((j, cs) ∷ d) k ≡ agent_candidates d k =
            ground (arith, one, f) in
          rw there (listed-distinct k d q)
    ]

-- The IDs of a stack's planning advisor differ from one another.
abbrev pub OncePlanned : Dict String (List StackCandidate) → Type 0
OncePlanned agents = distinct (ids (agent_candidates agents "planning-advisor")) ≡ true

all_candidates-OncePlanned :
    (stacks : Dict String Definition)
    → distinct (ids (all_candidates stacks)) ≡ true
    → All (λ s. OncePlanned s.1.agents) stacks
all_candidates-OncePlanned [] h = tt
all_candidates-OncePlanned ((n, s) ∷ stacks) h =
    let (p, q) = distinct-parts (s.controller ++ listed s.agents) (all_candidates stacks) h in
    let (_, l) = distinct-parts s.controller (listed s.agents) p in
    (listed-distinct "planning-advisor" s.agents l, all_candidates-OncePlanned stacks q)

no_planning : contains legacy_roles "planning-advisor" ≡ false
unfolding string_eq
no_planning = refl

module _ (digest : String → String → ℕ → String → String)
    (models : Dict String ModelDefinition) where
  agents_from-Fresh :
      (stack : String) (rs : List String) (d : Dict String Json) (seen : List String)
      (r : Dict String (List StackCandidate) × List String)
      → agents_from digest models version_2 stack rs d seen ≡ ok r
      → (keys r.0 ≡ rs) × Adds seen (listed r.0) r.1
  unfolding agents_from add_ids scope_candidates
  agents_from-Fresh stack [] d seen r h = ground arith
  agents_from-Fresh stack (role ∷ rs) d seen r h =
      let (first, f_eq, h1) = >>=-eq-ok (candidate_list models seen (item role d)) _ h in
      let (more, m_eq, h2) =
        >>=-eq-ok (agents_from digest models version_2 stack rs d first.1) _ h1 in
      let (k, f) = agents_from-Fresh stack rs d first.1 more m_eq in
      subst (λ r. (keys r.0 ≡ role ∷ rs) × Adds seen (listed r.0) r.1) (ok-injective h2)
        (
          ap (λ t. role ∷ t) k,
          Adds-append seen first.1 more.1 first.0 (listed more.0)
              (candidate_list-Fresh models seen (item role d) first f_eq) f,
        )

  stack_agents-Fresh :
      (stack : String) (v : Json) (seen : List String)
      (r : Dict String (List StackCandidate) × List String)
      → stack_agents digest models version_2 stack v seen ≡ ok r
      → OncePlanned r.0
      → Adds seen (listed r.0) r.1
  unfolding stack_agents add_planning
  stack_agents-Fresh stack (obj fs) seen r h once =
      elim (Bool-cases (has_exactly legacy_roles (entries fs))) [
        | inl e ↦
            let (q, q_eq, h1) =
              >>=-eq-ok (agents_from digest models version_2 stack legacy_roles (entries fs) seen) _
                (rw e at h) in
            let (k, f) = agents_from-Fresh stack legacy_roles (entries fs) seen q q_eq in
            let planning =
              planning_from digest stack zero (agent_candidates q.0 "architecture-advisor") in
            let (_, g, h2) =
              >>=-eq-ok (guard (not (any (λ c. contains q.1 c.id) planning)) repeated_id) _ h1 in
            let new : any (λ c. contains q.1 c.id) planning ≡ false = ground (arith, g) in
            let apart : distinct (ids planning) ≡ true =
              ap (λ l. distinct (ids l))
                (sym (agent_candidates-insert "planning-advisor" planning q.0))
              ∙ subst (λ (r : Dict String (List StackCandidate) × List String). OncePlanned r.0)
                  (sym (ok-injective h2)) once in
            subst (λ r. Adds seen (listed r.0) r.1) (ok-injective h2)
              (subst (λ l. Adds seen l (add_ids q.1 planning))
                (sym (
                  listed-insert "planning-advisor" planning q.0
                    (ap (λ l. contains l "planning-advisor") k ∙ no_planning)))
                (Adds-append seen q.1 (add_ids q.1 planning) (listed q.0) planning f
                  (distinct-Fresh q.1 planning apart new, refl)))
        | inr e ↦ (agents_from-Fresh stack roles (entries fs) seen r (rw e at h)).1
      ]
  stack_agents-Fresh stack v seen r h once = ground arith

  parse_stack-Fresh :
      (seen : List String) (n : String) (v : Json) (r : (String × Definition) × List String)
      → parse_stack digest models version_2 seen n v ≡ ok r
      → OncePlanned r.0.1.agents
      → Adds seen (r.0.1.controller ++ listed r.0.1.agents) r.1
  unfolding parse_stack scope_candidates
  parse_stack-Fresh seen n v r h once =
      let (name, _, h1) = >>=-eq-ok (stack_name (str n)) _ h in
      let (d, _, h2) = >>=-eq-ok (exact v ("controller" ∷ "agents" ∷ [])) _ h1 in
      let (_, _, h3) = >>=-eq-ok (guard (are_agents (item "agents" d)) wrong_agents) _ h2 in
      let (first, f_eq, h4) = >>=-eq-ok (candidate_list models seen (item "controller" d)) _ h3 in
      let (more, m_eq, h5) =
        >>=-eq-ok (stack_agents digest models version_2 name (item "agents" d) first.1) _ h4 in
      subst (λ r. Adds seen (r.0.1.controller ++ listed r.0.1.agents) r.1) (ok-injective h5)
        (Adds-append seen first.1 more.1 first.0 (listed more.0)
          (candidate_list-Fresh models seen (item "controller" d) first f_eq)
          (stack_agents-Fresh name (item "agents" d) first.1 more m_eq (
            subst (λ (r : (String × Definition) × List String). OncePlanned r.0.1.agents)
              (sym (ok-injective h5)) once)))

  stacks_from-Fresh :
      (seen : List String) (d : Dict String Json) (r : Dict String Definition × List String)
      → stacks_from digest models version_2 seen d ≡ ok r
      → All (λ s. OncePlanned s.1.agents) r.0
      → Adds seen (all_candidates r.0) r.1
  unfolding stacks_from add_ids
  stacks_from-Fresh seen [] r h once = ground arith
  stacks_from-Fresh seen ((n, v) ∷ d) r h once =
      let (first, f_eq, h1) = >>=-eq-ok (parse_stack digest models version_2 seen n v) _ h in
      let (rest, r_eq, h2) = >>=-eq-ok (stacks_from digest models version_2 first.1 d) _ h1 in
      let each : All (λ (s : String × Definition). OncePlanned s.1.agents) (first.0 ∷ rest.0) =
        subst (λ (r : Dict String Definition × List String). All (λ s. OncePlanned s.1.agents) r.0)
          (sym (ok-injective h2)) once in
      subst (λ r. Adds seen (all_candidates r.0) r.1) (ok-injective h2)
        (Adds-append seen first.1 rest.1 (first.0.1.controller ++ listed first.0.1.agents)
          (all_candidates rest.0) (parse_stack-Fresh seen n v first f_eq each.0)
          (stacks_from-Fresh first.1 d rest r_eq each.1))

  -- In the stacks of an accepted document of schema version 2, legacy or not, no two candidates have
  -- the same ID, wherever they stand, exactly when no stack's planning advisor has an ID twice in its
  -- own list. The IDs made for a legacy stack's planning advisor come from the digest and are compared
  -- with all others, but not with one another.
  pub parse_stacks-distinct_iff :
      (v : Json) (stacks : Dict String Definition)
      → parse_stacks digest models version_2 v ≡ ok stacks
      → (distinct (ids (all_candidates stacks)) ≡ true) ↔ All (λ s. OncePlanned s.1.agents) stacks
  unfolding parse_stacks
  parse_stacks-distinct_iff v stacks h =
      let (d, _, h1) = >>=-eq-ok (fields_of no_stacks v) _ h in
      let (found, f_eq, h2) = >>=-eq-ok (stacks_from digest models version_2 [] d) _ h1 in
      let same = ok-injective h2 in
      (
        all_candidates-OncePlanned stacks,
        λ once.
            let each = subst (All (λ s. OncePlanned s.1.agents)) (sym same) once in
            subst (λ s. distinct (ids (all_candidates s)) ≡ true) same
              (Fresh-distinct [] (all_candidates found.0)
                (stacks_from-Fresh [] d found f_eq each).0),
      )
