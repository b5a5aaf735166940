-- ===== src/Examples/Plans.antt =====
-- A plan for one stack, at two accounts of one pool.
use orichum.Base.{String, ◌≡◌, refl, none, List, [], ◌∷◌, string_eq, nat_eq, option_eq, map}
use orichum.Base.Dict.{Dict, lookup, insert, has_key}
use orichum.Base.Result.{ok}
use orichum.Base.Sort.{sorted, insert_sorted}
use orichum.Base.Text.{
  matches, is_lower, is_upper, is_digit, is_alnum, is_hex, size, every, strip_prefix, matches_hex16,
  str_leb, ◌<>◌,
}
use orichum.Json.{has_exactly, item}
use orichum.Account.{is_identifier, is_account_id}
use orichum.Account.Registry.{distinct}
use orichum.ModelRouting.{roles, is_model_id, is_stack_name, stack_name}
use orichum.ModelStacks.{StackCandidate, NormalizedStacks}
use orichum.ModelStacks.Normalize.{agent_candidates}
use orichum.RouteSelection.{
  eligible_routes, route_config, admits, is_available, upstream_model, route_for, collect,
  ranks_from, rank_of, route_le, choose_new_session_route, choose_from, route_chain, is_healthy,
  top_tier, max_priority, gather, gather_pools,
}
use orichum.RouteProxy.Policy.{Binding}
use orichum.Sessions.{
  is_profile, is_upstream, hex_then_model, has_scheme, is_foreign, parse_binding, text_of,
  priority_of, route_entries, route_json, parse_route_entries, parse_route, parse_routes,
  check_binding, parse_binding_entries,
}
use orichum.Sessions.Plan.{
  Planning, SessionPlan, normalized, normalized_source, query_of, routed, chain_binding, bind_known,
  bind_candidate, bind_first, bind_agents, effective_of, resolve_session_plan,
}
use orichum.Sessions.Resolved.{IsPlan, resolve_session_plan-IsPlan}
use orichum.Examples.{work, home}

abbrev planning : Planning
planning = record {
  accounts = home ∷ work ∷ [];
  pools = "team" ∷ [];
  health = (work.id, "limited") ∷ [];
  account_pools = ("team", "anthropic" ∷ []) ∷ [];
  fallback_routes = ("claude", "anthropic" ∷ []) ∷ [];
  candidate_accounts = [];
  available_models = none;
  digest = λ a m. "0123456789abcdef";
  candidate_digest = λ s t n m. m;
}

-- The first candidate's model is not known; the second is bound, to the account that is healthy.
abbrev candidates : List StackCandidate
candidates =
    record { id = "oc-c-0000000000000000"; model = "gone"; providers = "anthropic" ∷ [] }
    ∷ record { id = "oc-c-0000000000000001"; model = "opus"; providers = "anthropic" ∷ [] }
    ∷ []

abbrev stacks : NormalizedStacks
stacks = record {
  default_stack = "main";
  models = ("opus", record { family = "claude"; routes = ("anthropic", "opus-4") ∷ [] }) ∷ [];
  stacks =
      (
        "main",
        record {
          name = "main";
          controller = candidates;
          agents = map (λ r. (r, candidates)) roles;
        },
      )
      ∷ [];
}

abbrev binding : Binding
binding = record {
  primary = record {
    account_id = home.id;
    provider = "anthropic";
    family = "claude";
    logical_model = "opus";
    upstream_model = "oc-r-fedcba9876543210/opus-4";
    claudex_profile = "ocp-0123456789abcdef";
    priority = 50;
    pool = "team";
  };
  fallbacks = [];
}

abbrev agents : Dict String Binding
agents = map (λ r. (r, binding)) roles

abbrev plan : SessionPlan
plan = record {
  stack = "main";
  controller = binding;
  agents = agents;
  effective = record {
    stack_name = "main";
    controller = "oc-r-fedcba9876543210/opus-4";
    candidates = map (λ r. (r, "oc-r-fedcba9876543210/opus-4" ∷ [])) roles;
    agents = map (λ r. (r, "oc-r-fedcba9876543210/opus-4")) roles;
  };
}

planned : resolve_session_plan planning (normalized stacks) none 0 none none ≡ ok plan
unfolding resolve_session_plan effective_of bind_agents bind_first bind_candidate bind_known
    chain_binding routed query_of normalized_source agent_candidates stack_name
    parse_binding_entries check_binding parse_routes parse_route parse_route_entries route_json
    route_entries priority_of text_of parse_binding is_foreign has_scheme hex_then_model is_upstream
    is_profile is_stack_name is_model_id distinct is_account_id is_identifier has_exactly item
    matches_hex16 strip_prefix every size is_hex is_alnum is_digit is_upper is_lower matches
    route_chain choose_new_session_route choose_from is_healthy top_tier max_priority gather
    gather_pools eligible_routes route_config admits is_available upstream_model route_for collect
    ranks_from rank_of route_le sorted insert_sorted lookup insert has_key string_eq nat_eq
    option_eq str_leb ◌<>◌
planned = refl

resolve_session_plan-IsPlan_example : IsPlan planning (normalized stacks) none 0 none none plan
resolve_session_plan-IsPlan_example =
    resolve_session_plan-IsPlan planning (normalized stacks) none 0 none none plan planned
