-- ===== src/ModelStacks/WrittenStacks.antt =====
-- The agents and the stacks that `serialize_model_stacks` writes are read again.
use orichum.Base.{
  ℕ, String, true, false, ◌≡◌, List, [], ◌∷◌, ◌++◌, All, map, string_eq, nat_eq, refl, subst, sym,
  ap, ◌∙◌,
}
use orichum.Base.Dict.{Dict, lookup, keys}
use orichum.Base.Result.{ok}
use orichum.Json.{Json, item, object, has_exactly}
use orichum.ModelRouting.{roles, legacy_roles, is_stack_name}
use orichum.ModelRouting.Roles.{tabulate-roles}
use orichum.ModelStacks.{ModelDefinition, StackCandidate, Definition, version_2, exact}
use orichum.ModelStacks.Normalize.{
  add_ids, agent_candidates, scope_candidates, agents_from, stack_agents, are_agents, parse_stack,
  stacks_from,
}
use orichum.ModelStacks.Serialize.{serialize_candidates, serialize_stack}
use orichum.ModelStacks.Valid.{IsCandidates}
use orichum.ModelStacks.Accepted.{IsDefinition}
use orichum.ModelStacks.Fresh.{Fresh, append-Fresh, add_ids-append}
use orichum.ModelStacks.Unique.{listed, all_candidates}
use orichum.ModelStacks.Written.{IsWritten, stack_name-str, candidate_list-serialize}

All-append : {A : Type 0} (P : A → Type 0) (a b : List A) → All P (a ++ b) → All P a × All P b
All-append P [] b h = (tt, h)
All-append P (x ∷ a) b h = let (p, q) = All-append P a b h.1 in ((h.0, p), q)

All-map :
    {A B : Type 0} (P : B → Type 0) (f : A → B) (l : List A)
    → All P (map f l)
    → All (λ a. P (f a)) l
All-map P f [] h = tt
All-map P f (x ∷ l) h = (h.0, All-map P f l h.1)

abbrev pub Agents : Type 0
Agents = Dict String (List StackCandidate)

-- The dictionary of some roles' candidates.
abbrev pub tabulate : Agents → List String → Agents
tabulate agents rs = map (λ r. (r, agent_candidates agents r)) rs

tabulate-roles_agents : (d : Agents) → keys d ≡ roles → tabulate d roles ≡ d
unfolding agent_candidates
tabulate-roles_agents d h = tabulate-roles [] d h

module _ (digest : String → String → ℕ → String → String)
    (models : Dict String ModelDefinition) where
  agents_from-serialize :
      (stack : String) (rs : List String) (d : Dict String Json) (agents : Agents)
      (seen : List String)
      → All (λ r. item r d ≡ serialize_candidates (agent_candidates agents r)) rs
      → All (λ r. IsCandidates models (agent_candidates agents r)) rs
      → All IsWritten (listed (tabulate agents rs))
      → Fresh seen (listed (tabulate agents rs))
      → agents_from digest models version_2 stack rs d seen
        ≡ ok (tabulate agents rs, add_ids seen (listed (tabulate agents rs)))
  unfolding agents_from scope_candidates add_ids
  agents_from-serialize stack [] d agents seen i h w f = refl
  agents_from-serialize stack (r ∷ rs) d agents seen i h w f =
      let cs = agent_candidates agents r in
      let rest = listed (tabulate agents rs) in
      let (w1, w2) = All-append IsWritten cs rest w in
      let (f1, f2) = append-Fresh seen cs rest f in
      rw i.0 (
        rw (candidate_list-serialize models seen cs h.0 w1 f1) (
          rw (agents_from-serialize stack rs d agents (add_ids seen cs) i.1 h.1 w2 f2)
            (ap (λ l. ok ((r, cs) ∷ tabulate agents rs, l)) (sym (add_ids-append seen cs rest)))))

  abbrev pub agents_entries : Agents → Dict String Json
  agents_entries agents =
      map (λ role. (role, serialize_candidates (agent_candidates agents role))) roles

  pub not_legacy : (agents : Agents) → has_exactly legacy_roles (agents_entries agents) ≡ false
  unfolding has_exactly string_eq
  not_legacy agents = refl

  are_agents-object : (agents : Agents) → are_agents (object (agents_entries agents)) ≡ true
  unfolding are_agents has_exactly string_eq
  are_agents-object agents = refl

  pub agents-items :
      (agents : Agents)
      → All
          (λ r. item r (agents_entries agents) ≡ serialize_candidates (agent_candidates agents r))
          roles
  unfolding item lookup string_eq
  agents-items agents = (refl, (refl, (refl, (refl, (refl, (refl, tt))))))

  abbrev pub stack_fields : Definition → Dict String Json
  stack_fields s =
      ("controller", serialize_candidates s.controller)
      ∷ ("agents", object (agents_entries s.agents))
      ∷ []

  pub exact-stack :
      (s : Definition)
      → exact (serialize_stack s) ("controller" ∷ "agents" ∷ []) ≡ ok (stack_fields s)
  unfolding exact serialize_stack has_exactly string_eq
  exact-stack s = refl

  pub stack-items :
      (s : Definition)
      → (item "controller" (stack_fields s) ≡ serialize_candidates s.controller)
        × (item "agents" (stack_fields s) ≡ object (agents_entries s.agents))
  unfolding item lookup string_eq
  stack-items s = (refl, refl)

  stack_agents-serialize :
      (stack : String) (agents : Agents) (seen : List String)
      → keys agents ≡ roles
      → All (λ e. IsCandidates models e.1) agents
      → All IsWritten (listed agents)
      → Fresh seen (listed agents)
      → stack_agents digest models version_2 stack (object (agents_entries agents)) seen
        ≡ ok (agents, add_ids seen (listed agents))
  unfolding stack_agents
  stack_agents-serialize stack agents seen k h w f =
      let t = tabulate-roles_agents agents k in
      let each : All (λ r. IsCandidates models (agent_candidates agents r)) roles =
        All-map (λ (e : String × List StackCandidate). IsCandidates models e.1)
          (λ (r : String). (r, agent_candidates agents r)) roles
          (subst (All (λ e. IsCandidates models e.1)) (sym t) h) in
      let run =
        agents_from-serialize stack roles (agents_entries agents) agents seen (agents-items agents)
          each (subst (λ d. All IsWritten (listed d)) (sym t) w)
          (subst (λ d. Fresh seen (listed d)) (sym t) f) in
      rw (not_legacy agents) (run ∙ ap (λ d. ok (d, add_ids seen (listed d))) t)

  parse_stack-serialize :
      (seen : List String) (n : String) (s : Definition)
      → is_stack_name n ≡ true
      → IsDefinition models (n, s)
      → All IsWritten (s.controller ++ listed s.agents)
      → Fresh seen (s.controller ++ listed s.agents)
      → parse_stack digest models version_2 seen n (serialize_stack s)
        ≡ ok ((n, s), add_ids seen (s.controller ++ listed s.agents))
  unfolding parse_stack scope_candidates
  parse_stack-serialize seen n s name h w f =
      let (c, a) = stack-items s in
      let (w1, w2) = All-append IsWritten s.controller (listed s.agents) w in
      let (f1, f2) = append-Fresh seen s.controller (listed s.agents) f in
      rw (stack_name-str n name, exact-stack s)
        (rw (c, a)
          (rw
            (
              are_agents-object s.agents,
              candidate_list-serialize models seen s.controller h.controller w1 f1,
            )
            (rw
              (stack_agents-serialize n s.agents (add_ids seen s.controller) h.roles_given h.agents
                w2 f2)
              (rw (add_ids-append seen s.controller (listed s.agents), sym h.name) refl))))

  pub stacks_from-serialize :
      (seen : List String) (d : Dict String Definition)
      → All (λ s. is_stack_name s.0 ≡ true) d
      → All (IsDefinition models) d
      → All IsWritten (all_candidates d)
      → Fresh seen (all_candidates d)
      → stacks_from digest models version_2 seen (map (λ s. (s.0, serialize_stack s.1)) d)
        ≡ ok (d, add_ids seen (all_candidates d))
  unfolding stacks_from add_ids
  stacks_from-serialize seen [] names h w f = refl
  stacks_from-serialize seen ((n, s) ∷ d) names h w f =
      let own = s.controller ++ listed s.agents in
      let (w1, w2) = All-append IsWritten own (all_candidates d) w in
      let (f1, f2) = append-Fresh seen own (all_candidates d) f in
      rw (parse_stack-serialize seen n s names.0 h.0 w1 f1) (
        rw (stacks_from-serialize (add_ids seen own) d names.1 h.1 w2 f2)
          (ap (λ l. ok ((n, s) ∷ d, l)) (sym (add_ids-append seen own (all_candidates d)))))
