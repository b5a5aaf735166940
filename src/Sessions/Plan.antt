-- ===== src/Sessions/Plan.antt =====
-- orichum_sessions.py: `resolve_session_plan`, which binds the controller and the roles of a stack to
-- routes. The callers' selection ordinals are not negative.
use orichum.Base.{
  ℕ, ◌+◌, String, not, ◌&&◌, Option, none, some, List, [], ◌∷◌, ◌++◌, map, pos, ◌==◌, nat_eq,
  string_eq, if◌then◌else◌, select, any, take, Eq,
}
use orichum.Base.Dict.{Dict, lookup}
use orichum.Base.Result.{ok, err, ◌>>=◌, ◌>>◌, guard}
use orichum.Json.{Json, object, array}
use orichum.Account.{Account}
use orichum.ModelRouting.{EffectiveStack, is_stack_name, roles, stack_name}
use orichum.ModelStacks.{ModelDefinition, StackCandidate, NormalizedStacks}
use orichum.ModelStacks.Normalize.{normalize_model_stacks, agent_candidates}
use orichum.RouteSelection.{Route, Query, Routed, eligible_routes, is_healthy, route_chain}
use orichum.RouteProxy.Policy.{Binding, Route-discrete}
use orichum.Sessions.{
  Checked, route_json, parse_binding, incomplete_stack, bad_stack, no_route, missing_role,
}

instance unfoldable pub route_eq : Eq Route
route_eq = record { dec = Route-discrete }

-- `config["model-stacks"]`: already normalized, or a document.
pub data StackSource : Type 0 where
  normalized : NormalizedStacks → StackSource
  raw : Json → StackSource

-- The arguments that every binding shares. `digest` is that of the profiles, `candidate_digest` that
-- of the candidates' IDs.
pub record Planning : Type 0 where
  pub accounts : List Account
  pub pools : List String
  pub health : Dict String String
  pub account_pools : Dict String (List String)
  pub fallback_routes : Dict String (List String)
  pub candidate_accounts : Dict String String
  pub available_models : Option (List String)
  pub digest : String → String → String
  pub candidate_digest : String → String → ℕ → String → String

pub record SessionPlan : Type 0 where
  pub stack : String
  pub controller : Binding
  pub agents : Dict String Binding
  pub effective : EffectiveStack

unfoldable pub normalized_source :
    (String → String → ℕ → String → String) → StackSource → Checked NormalizedStacks
normalized_source digest (normalized v) = ok v
normalized_source digest (raw v) = elim (normalize_model_stacks digest v) [
  | ok s ↦ ok s
  | err e ↦ err incomplete_stack
]

-- The comprehension over the pools, without its test of health.
unfoldable pub all_eligible : Query → List String → Routed (List Route)
all_eligible q [] = ok []
all_eligible q (pool ∷ pools) = do
  routes ← eligible_routes q pool
  rest ← all_eligible q pools
  ok (routes ++ rest)

-- `except (KeyError, TypeError, RouteError)`
unfoldable pub routed : {A : Type 0} → String → Routed A → Checked A
routed model (ok a) = ok a
routed model (err e) = err (no_route model)

-- The binding of the chain's routes, read from what is written of it.
unfoldable pub chain_binding : List Route → Checked Binding
chain_binding [] = err (no_route "")
chain_binding (primary ∷ rest) =
    parse_binding
      (object (("primary", route_json primary) ∷ ("fallbacks", array (map route_json rest)) ∷ []))

unfoldable pub prefer : Route → List Route → Binding
prefer primary chain = record {
  primary = primary;
  fallbacks = take 1 (select (λ r. not (r == primary)) chain);
}

module _ (plan : Planning) (models : Dict String ModelDefinition) where
  -- The arguments of the selection for one candidate, whose model is known.
  unfoldable pub query_of : StackCandidate → ModelDefinition → Query
  query_of c model = record {
    accounts = plan.accounts;
    family = model.family;
    logical_model = c.model;
    config = record {
      models = some (map (λ m. (m.0, m.1.family)) models);
      account_pools = plan.account_pools;
      fallback_routes = plan.fallback_routes;
    };
    allowed_providers = c.providers;
    locked_account_id = lookup c.id plan.candidate_accounts;
    upstream_by_provider = model.routes;
    available_models = plan.available_models;
    digest = plan.digest;
  }

  unfoldable pub bind_known :
      StackCandidate → ModelDefinition → ℕ → Option Binding → Checked Binding
  bind_known c model ordinal preferred = do
    let q = query_of c model
    chain ← routed c.model (route_chain q plan.pools plan.health (pos ordinal) (pos 1))
    elim preferred [
      | none ↦ chain_binding chain
      | some b ↦ routed c.model (all_eligible q plan.pools) >>= (λ eligible.
          if any (λ r. is_healthy plan.health r && r == b.primary) eligible
          then ok (prefer b.primary chain)
          else chain_binding chain)
    ]

  unfoldable pub bind_candidate : StackCandidate → ℕ → Option Binding → Checked Binding
  bind_candidate c ordinal preferred = elim (lookup c.model models) [
    | none ↦ err (no_route c.model)
    | some model ↦ bind_known c model ordinal preferred
  ]

  -- The first candidate that can be bound.
  unfoldable pub bind_first : String → List StackCandidate → ℕ → Option Binding → Checked Binding
  bind_first scope [] ordinal preferred = err (no_route scope)
  bind_first scope (c ∷ cs) ordinal preferred =
      let rest = bind_first scope cs ordinal preferred in
      elim (bind_candidate c ordinal preferred) [ ok b ↦ ok b | err e ↦ rest ]

  -- `enumerate(ROLES, start=1)`: the ordinal counts up. A pinned role that is missing is a `KeyError`.
  unfoldable pub bind_agents :
      Option (Dict String Binding)
      → Dict String (List StackCandidate)
      → List String
      → ℕ
      → Checked (Dict String Binding)
  bind_agents pinned agents [] ordinal = ok []
  bind_agents pinned agents (role ∷ rest) ordinal = do
    binding ← elim pinned [
      | some d ↦ elim (lookup role d) [ some b ↦ ok b | none ↦ err (missing_role role) ]
      | none ↦ bind_first role (agent_candidates agents role) ordinal none
    ]
    more ← bind_agents pinned agents rest (ordinal + 1)
    ok ((role, binding) ∷ more)

unfoldable pub effective_of : String → Binding → Dict String Binding → EffectiveStack
effective_of name controller agents = record {
  stack_name = name;
  controller = controller.primary.upstream_model;
  candidates = map (λ e. (e.0, e.1.primary.upstream_model ∷ [])) agents;
  agents = map (λ e. (e.0, e.1.primary.upstream_model)) agents;
}

module _ (plan : Planning) where
  unfoldable pub resolve_session_plan :
      StackSource
      → Option String
      → ℕ
      → Option (Dict String Binding)
      → Option Binding
      → Checked SessionPlan
  resolve_session_plan source requested ordinal pinned preferred = do
    stacks ← normalized_source plan.candidate_digest source
    let name = stack_name requested stacks.default_stack
    stack ← elim (lookup name stacks.stacks) [ none ↦ err incomplete_stack | some s ↦ ok s ]
    guard (is_stack_name name) bad_stack
    controller ← bind_first plan stacks.models "controller" stack.controller ordinal preferred
    agents ← bind_agents plan stacks.models pinned stack.agents roles (ordinal + 1)
    ok (record {
      stack = name;
      controller = controller;
      agents = agents;
      effective = effective_of name controller agents;
    })
