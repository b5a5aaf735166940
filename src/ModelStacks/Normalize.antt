-- ===== src/ModelStacks/Normalize.antt =====
-- stack_definition.py: the candidates of a stack, and the whole document.
use orichum.Base.{
  ℕ, ◌+◌, String, Bool, true, false, not, ◌||◌, List, [], ◌∷◌, ◌++◌, map, none, some, ◌==◌, nat_eq,
  string_eq, contains, if◌then◌else◌, all, any, pos,
}
use orichum.Base.Dict.{Dict, keys, lookup, has_key, insert}
use orichum.Base.Result.{ok, err, ◌>>=◌, ◌>>◌, guard}
use orichum.Base.Text.{◌<>◌}
use orichum.Json.{Json, int, str, obj, entries, has_exactly, item}
use orichum.Account.Registry.{distinct}
use orichum.ModelRouting.{roles, legacy_roles}
use orichum.ModelStacks.{
  Checked, unsafe_id, repeated_id, unknown_model, no_providers, repeated_provider, unrouted,
  no_candidates, repeated_candidate, repeated_route, mixed_families, no_stacks, wrong_agents,
  bad_schema, missing_default, ModelDefinition, StackCandidate, Definition, NormalizedStacks,
  Schema, version_1, version_2, is_candidate_id, exact, model_id, stack_name, fields_of, items_of,
  parse_models, identifiers, model_ids, distinct_routes, one_family,
}

-- `models[model].routes` and `.family`, of a model that is known.
unfoldable pub routes_of : Dict String ModelDefinition → String → Dict String String
routes_of models model = elim (lookup model models) [ none ↦ [] | some m ↦ m.routes ]

unfoldable pub family_of : Dict String ModelDefinition → String → String
family_of models model = elim (lookup model models) [ none ↦ "" | some m ↦ m.family ]

unfoldable pub upstream_of : Dict String String → String → String
upstream_of routes p = elim (lookup p routes) [ none ↦ "" | some u ↦ u ]

unfoldable pub candidate_text : Json → Checked String
candidate_text (str s) = do guard (is_candidate_id s) unsafe_id; ok s
candidate_text _ = err unsafe_id

-- `seen_ids.update(candidate.id for candidate in …)`
unfoldable pub add_ids : List String → List StackCandidate → List String
add_ids seen [] = seen
add_ids seen (c ∷ cs) = add_ids (c.id ∷ seen) cs

module _ (models : Dict String ModelDefinition) where
  -- `seen` are the IDs in `seen_ids`, which is returned with the new one.
  unfoldable pub candidate : List String → Json → Checked (StackCandidate × List String)
  candidate seen raw = do
    d ← exact raw ("id" ∷ "model" ∷ "providers" ∷ [])
    id ← candidate_text (item "id" d)
    guard (not (contains seen id)) repeated_id
    model ← model_id (item "model" d)
    guard (has_key model models) unknown_model
    raw_providers ← items_of no_providers (item "providers" d)
    providers ← identifiers raw_providers
    guard (distinct providers) repeated_provider
    guard (all (λ p. has_key p (routes_of models model)) providers) unrouted
    ok (record { id = id; model = model; providers = providers }, id ∷ seen)

  unfoldable pub candidates_from :
      List String → List Json → Checked (List StackCandidate × List String)
  candidates_from seen [] = ok ([], seen)
  candidates_from seen (v ∷ vs) = do
    first ← candidate seen v
    rest ← candidates_from first.1 vs
    ok (first.0 ∷ rest.0, rest.1)

  -- The pairs that `_validate_candidate_routes` compares.
  unfoldable pub provider_routes : List StackCandidate → Dict String String
  provider_routes [] = []
  provider_routes (c ∷ cs) =
      map (λ p. (p, upstream_of (routes_of models c.model) p)) c.providers ++ provider_routes cs

  unfoldable pub candidate_list : List String → Json → Checked (List StackCandidate × List String)
  candidate_list seen value = do
    vs ← items_of no_candidates value
    found ← candidates_from seen vs
    guard (distinct (map (λ c. c.model) found.0)) repeated_candidate
    guard (distinct_routes (provider_routes found.0)) repeated_route
    guard (one_family (map (λ c. family_of models c.model) found.0)) mixed_families
    ok found

unfoldable pub schema_of : Json → Checked Schema
schema_of (int (pos n)) =
    if n == 1 then ok version_1 else if n == 2 then ok version_2 else err bad_schema
schema_of _ = err bad_schema

unfoldable pub are_agents : Json → Bool
are_agents (obj fs) = has_exactly legacy_roles (entries fs) || has_exactly roles (entries fs)
are_agents _ = false

-- `stack.agents[role]`, for a role that every stack has.
unfoldable pub agent_candidates : Dict String (List StackCandidate) → String → List StackCandidate
agent_candidates agents role = elim (lookup role agents) [ none ↦ [] | some cs ↦ cs ]

-- `digest stack scope ordinal model` is the first 16 hexadecimal digits of the SHA-256 of the four,
-- with NUL characters between them.
module _ (digest : String → String → ℕ → String → String) where
  unfoldable pub candidate_id : String → String → ℕ → String → String
  candidate_id stack scope ordinal model = "oc-c-" <> digest stack scope ordinal model

  -- The candidates made for a legacy stack's planning advisor.
  unfoldable pub planning_from : String → ℕ → List StackCandidate → List StackCandidate
  planning_from stack n [] = []
  planning_from stack n (c ∷ cs) =
      record c { id = candidate_id stack "planning-advisor" n c.model }
      ∷ planning_from stack (n + 1) cs

  -- The planning advisor of a legacy stack, from its architecture advisor.
  unfoldable pub add_planning :
      String
      → Dict String (List StackCandidate)
      → List String
      → Checked (Dict String (List StackCandidate) × List String)
  add_planning stack agents seen = do
    let planning = planning_from stack 0 (agent_candidates agents "architecture-advisor")
    guard (not (any (λ c. contains seen c.id) planning)) repeated_id
    ok (insert "planning-advisor" planning agents, add_ids seen planning)

  module _ (models : Dict String ModelDefinition) where
    unfoldable pub new_candidates : String → String → ℕ → List String → List StackCandidate
    new_candidates stack scope n [] = []
    new_candidates stack scope n (m ∷ ms) =
        record {
          id = candidate_id stack scope n m;
          model = m;
          providers = keys (routes_of models m);
        }
        ∷ new_candidates stack scope (n + 1) ms

    unfoldable pub migrated_candidates :
        String → String → Bool → Json → Checked (List StackCandidate)
    migrated_candidates stack scope multiple value = do
      raw_models ← if multiple then items_of no_candidates value else ok (value ∷ [])
      ms ← model_ids raw_models
      guard (distinct ms) repeated_candidate
      guard (all (λ m. has_key m models) ms) unknown_model
      guard (one_family (map (family_of models) ms)) mixed_families
      let candidates = new_candidates stack scope 0 ms
      guard (distinct_routes (provider_routes models candidates)) repeated_route
      ok candidates

    -- The candidates of the controller or of a role, by schema version.
    unfoldable pub scope_candidates :
        Schema
        → String
        → String
        → Bool
        → List String
        → Json
        → Checked (List StackCandidate × List String)
    scope_candidates version_1 stack scope multiple seen value = do
      candidates ← migrated_candidates stack scope multiple value
      ok (candidates, seen)
    scope_candidates version_2 stack scope multiple seen value = candidate_list models seen value

    unfoldable pub agents_from :
        Schema
        → String
        → List String
        → Dict String Json
        → List String
        → Checked (Dict String (List StackCandidate) × List String)
    agents_from schema stack [] agents seen = ok ([], seen)
    agents_from schema stack (role ∷ rest) agents seen = do
      first ← scope_candidates schema stack role true seen (item role agents)
      more ← agents_from schema stack rest agents first.1
      ok ((role, first.0) ∷ more.0, more.1)

    unfoldable pub stack_agents :
        Schema
        → String
        → Json
        → List String
        → Checked (Dict String (List StackCandidate) × List String)
    stack_agents schema stack (obj fs) seen =
        if has_exactly legacy_roles (entries fs)
        then agents_from schema stack legacy_roles (entries fs) seen
          >>= (λ r. add_planning stack r.0 r.1)
        else agents_from schema stack roles (entries fs) seen
    stack_agents schema stack _ seen = err wrong_agents

    unfoldable pub parse_stack :
        Schema → List String → String → Json → Checked ((String × Definition) × List String)
    parse_stack schema seen raw_name raw_stack = do
      name ← stack_name (str raw_name)
      stack ← exact raw_stack ("controller" ∷ "agents" ∷ [])
      guard (are_agents (item "agents" stack)) wrong_agents
      first ← scope_candidates schema name "controller" false seen (item "controller" stack)
      more ← stack_agents schema name (item "agents" stack) first.1
      ok ((name, record { name = name; controller = first.0; agents = more.0 }), more.1)

    unfoldable pub stacks_from :
        Schema → List String → Dict String Json → Checked (Dict String Definition × List String)
    stacks_from schema seen [] = ok ([], seen)
    stacks_from schema seen ((n, v) ∷ d) = do
      first ← parse_stack schema seen n v
      rest ← stacks_from schema first.1 d
      ok (first.0 ∷ rest.0, rest.1)

    unfoldable pub parse_stacks : Schema → Json → Checked (Dict String Definition)
    parse_stacks schema value = do
      d ← fields_of no_stacks value
      found ← stacks_from schema [] d
      ok found.0

  unfoldable pub normalize_model_stacks : Json → Checked NormalizedStacks
  normalize_model_stacks raw = do
    document ← exact raw ("schemaVersion" ∷ "defaultStack" ∷ "models" ∷ "stacks" ∷ [])
    schema ← schema_of (item "schemaVersion" document)
    default ← stack_name (item "defaultStack" document)
    models ← parse_models schema (item "models" document)
    stacks ← parse_stacks models schema (item "stacks" document)
    guard (has_key default stacks) missing_default
    ok (record { default_stack = default; models = models; stacks = stacks })
