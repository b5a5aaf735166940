-- ===== src/Sessions/Resolved.antt =====
-- What a plan that `resolve_session_plan` returns is.
use orichum.Base.{
  ℕ, ◌+◌, String, ◌≡◌, Option, none, some, List, [], ◌∷◌, string_eq, nat_eq, refl, ap, subst, arith,
  All,
}
use orichum.Base.Dict.{Dict, keys, lookup}
use orichum.Base.Result.{ok, err, guard, >>=-eq-ok, ok-injective}
use orichum.ModelRouting.{is_stack_name, roles, stack_name}
use orichum.ModelStacks.{ModelDefinition, StackCandidate, Definition, NormalizedStacks}
use orichum.ModelStacks.Normalize.{agent_candidates}
use orichum.RouteProxy.Policy.{Binding}
use orichum.Sessions.{bad_stack, incomplete_stack, missing_role}
use orichum.Sessions.Plan.{
  StackSource, Planning, SessionPlan, normalized_source, bind_first, bind_agents, effective_of,
  resolve_session_plan,
}
use orichum.Sessions.Planned.{IsFirst, bind_first-IsFirst}

module _ (plan : Planning) where
  -- A role's binding: the pinned one where bindings are pinned, or that of the first candidate that
  -- can be bound.
  abbrev pub IsRoleBinding :
      Dict String ModelDefinition
      → Option (Dict String Binding)
      → Dict String (List StackCandidate)
      → String × Binding
      → Type 0
  IsRoleBinding models (some d) agents (role, b) = lookup role d ≡ some b
  IsRoleBinding models none agents (role, b) =
      (ordinal : ℕ) × IsFirst plan models ordinal none (agent_candidates agents role) b

  pub record IsPlan (source : StackSource) (requested : Option String) (ordinal : ℕ)
      (pinned : Option (Dict String Binding)) (preferred : Option Binding) (r : SessionPlan)
      : Type 0 where
    pub stacks : NormalizedStacks
    pub source_ok : normalized_source plan.candidate_digest source ≡ ok stacks
    pub name : r.stack ≡ stack_name requested stacks.default_stack
    pub definition : Definition
    pub found : lookup r.stack stacks.stacks ≡ some definition
    pub controller_first :
        IsFirst plan stacks.models ordinal preferred definition.controller r.controller
    pub roles_given : keys r.agents ≡ roles
    pub agents_ok : All (IsRoleBinding stacks.models pinned definition.agents) r.agents
    pub effective_ok : r.effective ≡ effective_of r.stack r.controller r.agents

  bind_agents-ok :
      (models : Dict String ModelDefinition) (pinned : Option (Dict String Binding))
      (agents : Dict String (List StackCandidate)) (rs : List String) (ordinal : ℕ)
      (d : Dict String Binding)
      → bind_agents plan models pinned agents rs ordinal ≡ ok d
      → (keys d ≡ rs) × All (IsRoleBinding models pinned agents) d
  unfolding bind_agents
  bind_agents-ok models pinned agents [] ordinal d h =
      subst (λ d. (keys d ≡ []) × All (IsRoleBinding models pinned agents) d) (ok-injective h)
        (refl, tt)
  bind_agents-ok models (some pins) agents (r ∷ rs) ordinal d h =
      let (b, e, h1) =
        >>=-eq-ok (elim (lookup r pins) [ some b ↦ ok b | none ↦ err (missing_role r) ]) _ h in
      let (more, f, h2) =
        >>=-eq-ok (bind_agents plan models (some pins) agents rs (ordinal + 1)) _ h1 in
      let (k, a) = bind_agents-ok models (some pins) agents rs (ordinal + 1) more f in
      subst (λ d. (keys d ≡ r ∷ rs) × All (IsRoleBinding models (some pins) agents) d)
        (ok-injective h2) (ap (λ l. r ∷ l) k, (ground (arith, e), a))
  bind_agents-ok models none agents (r ∷ rs) ordinal d h =
      let (b, e, h1) =
        >>=-eq-ok (bind_first plan models r (agent_candidates agents r) ordinal none) _ h in
      let (more, f, h2) = >>=-eq-ok (bind_agents plan models none agents rs (ordinal + 1)) _ h1 in
      let (k, a) = bind_agents-ok models none agents rs (ordinal + 1) more f in
      subst (λ d. (keys d ≡ r ∷ rs) × All (IsRoleBinding models none agents) d) (ok-injective h2)
        (
          ap (λ l. r ∷ l) k,
          (
            (
              ordinal,
              bind_first-IsFirst plan models r (agent_candidates agents r) ordinal none b e,
            ),
            a,
          ),
        )

  -- A plan that is returned is of the stack asked for, or of the default. Its controller is bound to
  -- the first of the stack's candidates that can be bound, with a primary route that is healthy and
  -- eligible for that candidate in one of the pools. Each of the six roles, and no other, has its
  -- pinned binding where bindings are pinned, and otherwise such a binding of its own candidates. The
  -- effective stack names the primaries' upstream models.
  pub resolve_session_plan-IsPlan :
      (source : StackSource) (requested : Option String) (ordinal : ℕ)
      (pinned : Option (Dict String Binding)) (preferred : Option Binding) (r : SessionPlan)
      → resolve_session_plan plan source requested ordinal pinned preferred ≡ ok r
      → IsPlan source requested ordinal pinned preferred r
  unfolding resolve_session_plan
  resolve_session_plan-IsPlan source requested ordinal pinned preferred r h =
      let (stacks, s_eq, h1) = >>=-eq-ok (normalized_source plan.candidate_digest source) _ h in
      let name = stack_name requested stacks.default_stack in
      let (stack, f_eq, h2) =
        >>=-eq-ok (elim (lookup name stacks.stacks) [ none ↦ err incomplete_stack | some s ↦ ok s ])
          _ h1 in
      let (_, _, h3) = >>=-eq-ok (guard (is_stack_name name) bad_stack) _ h2 in
      let (controller, c_eq, h4) =
        >>=-eq-ok (bind_first plan stacks.models "controller" stack.controller ordinal preferred) _
          h3 in
      let (agents, a_eq, h5) =
        >>=-eq-ok (bind_agents plan stacks.models pinned stack.agents roles (ordinal + 1)) _ h4 in
      let (k, a) =
        bind_agents-ok stacks.models pinned stack.agents roles (ordinal + 1) agents a_eq in
      subst (IsPlan source requested ordinal pinned preferred) (ok-injective h5) (record {
        stacks = stacks;
        source_ok = s_eq;
        name = refl;
        definition = stack;
        found = ground (arith, f_eq);
        controller_first =
            bind_first-IsFirst plan stacks.models "controller" stack.controller ordinal preferred
              controller c_eq;
        roles_given = k;
        agents_ok = a;
        effective_ok = refl;
      })
