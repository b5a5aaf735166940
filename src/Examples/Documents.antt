-- ===== src/Examples/Documents.antt =====
-- The theorems on the document of models and stacks, at a legacy document of schema version 1 and at
-- one of version 2.
use orichum.Base.{◌↔◌, All, ℕ, String, true, ◌≡◌, refl, List, [], ◌∷◌, string_eq, nat_eq, pos, map}
use orichum.Base.Dict.{Dict, lookup, insert, has_key}
use orichum.Base.Result.{ok}
use orichum.Base.Sort.{sorted, insert_sorted}
use orichum.Base.Text.{
  matches, is_lower, is_upper, is_digit, is_alnum, is_hex, size, every, ◌<>◌, strip_prefix,
  matches_hex16,
}
use orichum.Json.{Json, int, str, object, array, has_exactly, item}
use orichum.Account.{is_identifier}
use orichum.Account.Registry.{distinct}
use orichum.ModelRouting.{roles, is_stack_name, is_model_id, validate_stack_name, validate_model_id}
use orichum.ModelStacks.{
  ModelDefinition, StackCandidate, Definition, NormalizedStacks, version_2, is_candidate_id, exact,
  identifier, reraised, model_id, stack_name, fields_of, items_of, parse_routes, parse_definition,
  parse_model, parse_entries, parse_models, identifiers, model_ids, distinct_routes, one_family,
}
use orichum.ModelStacks.Normalize.{
  routes_of, family_of, upstream_of, candidate_text, add_ids, candidate, candidates_from,
  provider_routes, candidate_list, schema_of, are_agents, agent_candidates, candidate_id,
  planning_from, add_planning, new_candidates, migrated_candidates, scope_candidates, agents_from,
  stack_agents, parse_stack, stacks_from, parse_stacks, normalize_model_stacks,
}
use orichum.ModelStacks.Serialize.{
  serialize_model_stacks, serialize_model, serialize_stack, serialize_candidate,
  serialize_candidates,
}
use orichum.ModelStacks.Accepted.{IsNormalized, normalize_model_stacks-IsNormalized}
use orichum.ModelStacks.Fresh.{ids}
use orichum.ModelStacks.Unique.{all_candidates, OncePlanned, parse_stacks-distinct_iff}
use orichum.ModelStacks.Written.{IsWritten}
use orichum.ModelStacks.RoundTrip.{IsCanonical, normalize_model_stacks-serialize}

-- Sixteen digits, as the source takes them, the same for each candidate.
abbrev digest : String → String → ℕ → String → String
digest stack scope n model = "0000000000000006"

abbrev role_models : List Json
role_models = str "gpt" ∷ []

abbrev legacy : Json
legacy = object (
    ("schemaVersion", int (pos 1))
    ∷ ("defaultStack", str "main")
    ∷ (
      "models",
      object (
          (
            "gpt",
            object (
                ("provider", str "openai")
                ∷ ("family", str "gpt")
                ∷ ("upstream", str "gpt-5")
                ∷ []),
          )
          ∷ []),
    )
    ∷ (
      "stacks",
      object (
          (
            "main",
            object (
                ("controller", str "gpt")
                ∷ (
                  "agents",
                  object (
                      ("repository-explorer", array role_models)
                      ∷ ("repository-verifier", array role_models)
                      ∷ ("correctness-critic", array role_models)
                      ∷ ("architecture-advisor", array role_models)
                      ∷ ("implementation-worker", array role_models)
                      ∷ []),
                )
                ∷ []),
          )
          ∷ []),
    )
    ∷ [])

abbrev pub gpt : String → StackCandidate
gpt id = record { id = id; model = "gpt"; providers = "openai" ∷ [] }

abbrev models : Dict String ModelDefinition
models = ("gpt", record { family = "gpt"; routes = ("openai", "gpt-5") ∷ [] }) ∷ []

abbrev of_legacy : NormalizedStacks
of_legacy = record {
  default_stack = "main";
  models = models;
  stacks =
      (
        "main",
        record {
          name = "main";
          controller = gpt "oc-c-0000000000000006" ∷ [];
          agents = map (λ r. (r, gpt "oc-c-0000000000000006" ∷ [])) roles;
        },
      )
      ∷ [];
}

accepted : normalize_model_stacks digest legacy ≡ ok of_legacy
unfolding normalize_model_stacks parse_stacks stacks_from parse_stack stack_agents agents_from
    scope_candidates migrated_candidates new_candidates add_planning planning_from candidate_id
    agent_candidates are_agents schema_of provider_routes add_ids upstream_of family_of routes_of
    one_family distinct_routes model_ids parse_models parse_entries parse_model parse_definition
    items_of fields_of stack_name model_id reraised identifier exact is_model_id is_stack_name
    distinct is_identifier item has_exactly sorted insert_sorted has_key insert lookup ◌<>◌ every
    size is_alnum is_digit is_upper is_lower matches validate_stack_name validate_model_id string_eq
    nat_eq
accepted = refl

normalize_model_stacks-IsNormalized_example : IsNormalized of_legacy
normalize_model_stacks-IsNormalized_example =
    normalize_model_stacks-IsNormalized digest legacy of_legacy accepted

abbrev stacks : Dict String Definition
stacks =
    (
      "main",
      record {
        name = "main";
        controller = gpt "oc-c-0000000000000000" ∷ [];
        agents =
            ("repository-explorer", gpt "oc-c-0000000000000001" ∷ [])
            ∷ ("repository-verifier", gpt "oc-c-0000000000000002" ∷ [])
            ∷ ("correctness-critic", gpt "oc-c-0000000000000003" ∷ [])
            ∷ ("architecture-advisor", gpt "oc-c-0000000000000004" ∷ [])
            ∷ ("implementation-worker", gpt "oc-c-0000000000000005" ∷ [])
            ∷ ("planning-advisor", gpt "oc-c-0000000000000006" ∷ [])
            ∷ [];
      },
    )
    ∷ []

abbrev pub canonical : NormalizedStacks
canonical = record { default_stack = "main"; models = models; stacks = stacks }

reread : normalize_model_stacks digest (serialize_model_stacks canonical) ≡ ok canonical
unfolding normalize_model_stacks parse_stacks stacks_from parse_stack stack_agents agents_from
    scope_candidates candidate_list candidates_from candidate candidate_text is_candidate_id
    matches_hex16 strip_prefix is_hex identifiers parse_routes agent_candidates are_agents schema_of
    provider_routes add_ids upstream_of family_of routes_of one_family distinct_routes parse_models
    parse_entries parse_model parse_definition items_of fields_of stack_name model_id reraised
    identifier exact is_model_id is_stack_name distinct is_identifier item has_exactly sorted
    insert_sorted has_key insert lookup ◌<>◌ every size is_alnum is_digit is_upper is_lower matches
    validate_stack_name validate_model_id string_eq nat_eq serialize_model_stacks serialize_model
    serialize_stack serialize_candidates serialize_candidate
reread = refl

canonical-IsNormalized : IsNormalized canonical
canonical-IsNormalized =
    normalize_model_stacks-IsNormalized digest (serialize_model_stacks canonical) canonical reread

gpt-IsWritten : (id : String) → is_candidate_id id ≡ true → IsWritten (gpt id)
unfolding is_model_id is_identifier distinct every size is_alnum is_digit is_upper is_lower matches
    string_eq nat_eq
gpt-IsWritten id h = record { id_ok = h; model_ok = refl; forms = (refl, tt); once = refl }

canonical-IsCanonical : IsCanonical canonical
unfolding is_candidate_id is_stack_name is_model_id is_identifier distinct matches_hex16
    strip_prefix is_hex every size is_alnum is_digit is_upper is_lower matches string_eq nat_eq
    sorted insert_sorted
canonical-IsCanonical = record {
  default_ok = refl;
  some_models = λ e. cc;
  models_sorted = refl;
  routes_sorted = (refl, tt);
  stacks_sorted = refl;
  names_ok = (refl, tt);
  written = (
    gpt-IsWritten _ refl,
    (
      gpt-IsWritten _ refl,
      (
        gpt-IsWritten _ refl,
        (
          gpt-IsWritten _ refl,
          (gpt-IsWritten _ refl, (gpt-IsWritten _ refl, (gpt-IsWritten _ refl, tt))),
        ),
      ),
    ),
  );
  ids_once = refl;
}

normalize_model_stacks-serialize_example :
    normalize_model_stacks digest (serialize_model_stacks canonical) ≡ ok canonical
normalize_model_stacks-serialize_example =
    normalize_model_stacks-serialize digest canonical canonical-IsNormalized canonical-IsCanonical

-- The same stack as a legacy document has it: the planning advisor is to be made.
abbrev five_roles : List (String × Json)
five_roles =
    ("repository-explorer", serialize_candidates (gpt "oc-c-0000000000000001" ∷ []))
    ∷ ("repository-verifier", serialize_candidates (gpt "oc-c-0000000000000002" ∷ []))
    ∷ ("correctness-critic", serialize_candidates (gpt "oc-c-0000000000000003" ∷ []))
    ∷ ("architecture-advisor", serialize_candidates (gpt "oc-c-0000000000000004" ∷ []))
    ∷ ("implementation-worker", serialize_candidates (gpt "oc-c-0000000000000005" ∷ []))
    ∷ []

abbrev legacy_stacks : Json
legacy_stacks = object (
    (
      "main",
      object (
          ("controller", serialize_candidates (gpt "oc-c-0000000000000000" ∷ []))
          ∷ ("agents", object five_roles)
          ∷ []),
    )
    ∷ [])

parsed : parse_stacks digest models version_2 legacy_stacks ≡ ok stacks
unfolding parse_stacks stacks_from parse_stack stack_agents agents_from scope_candidates
    candidate_list candidates_from candidate candidate_text is_candidate_id matches_hex16
    strip_prefix is_hex identifiers agent_candidates are_agents provider_routes add_ids upstream_of
    family_of routes_of one_family distinct_routes items_of fields_of stack_name model_id reraised
    identifier exact is_model_id is_stack_name distinct is_identifier item has_exactly has_key
    add_planning planning_from candidate_id insert ◌<>◌ lookup every size is_alnum is_digit is_upper
    is_lower matches validate_stack_name validate_model_id string_eq nat_eq serialize_candidates
    serialize_candidate
parsed = refl

parse_stacks-distinct_iff_example :
    (distinct (ids (all_candidates stacks)) ≡ true) ↔ All (λ s. OncePlanned s.1.agents) stacks
parse_stacks-distinct_iff_example =
    parse_stacks-distinct_iff digest models legacy_stacks stacks parsed
