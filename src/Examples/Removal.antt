-- ===== src/Examples/Removal.antt =====
-- A stack that is removed beside the one of the sample document, with the lock of its candidate.
use orichum.Base.{ℕ, ◌≡◌, refl, String, [], ◌∷◌, inl, string_eq, nat_eq, option_eq}
use orichum.Base.Dict.{lookup, insert, has_key, erase}
use orichum.Base.Result.{ok}
use orichum.Base.Sort.{sorted, insert_sorted}
use orichum.Base.Text.{
  matches, is_lower, is_upper, is_digit, is_alnum, is_hex, size, every, ◌<>◌, strip_prefix,
  matches_hex16, str_leb,
}
use orichum.Json.{Json, str, object, array, has_exactly, item}
use orichum.Account.{Account, is_identifier, is_account_id}
use orichum.Account.Registry.{distinct}
use orichum.ModelRouting.{is_stack_name, is_model_id, validate_stack_name, validate_model_id}
use orichum.ModelStacks.{
  Definition, NormalizedStacks, is_candidate_id, exact, identifier, reraised, model_id, stack_name,
  fields_of, items_of, parse_routes, parse_definition, parse_model, parse_entries, parse_models,
  identifiers, distinct_routes, one_family,
}
use orichum.ModelStacks.Normalize.{
  routes_of, family_of, upstream_of, candidate_text, add_ids, candidate, candidates_from,
  provider_routes, candidate_list, schema_of, are_agents, agent_candidates, scope_candidates,
  agents_from, stack_agents, parse_stack, stacks_from, parse_stacks, normalize_model_stacks,
}
use orichum.ModelStacks.Serialize.{
  serialize_model_stacks, serialize_model, serialize_stack, serialize_candidate,
  serialize_candidates,
}
use orichum.StackBindings.{StackBindings, check_entries, new_bindings, accounts_json}
use orichum.StackStore.{
  joined, candidates_in, candidate_ids, candidates_by_id, active_by_id, is_compatible,
  validate_stack_bindings, is_reference, erase_in, without_stack, contexts_of, kept, delete_stack,
}
use orichum.StackStore.Locks.{IsLock, validate_stack_bindings-IsLock}
use orichum.StackStore.Deleted.{IsDeleted, delete_stack-IsDeleted}
use orichum.Examples.{work}
use orichum.Examples.Documents.{canonical, gpt}

abbrev spare : Definition
spare = record {
  name = "spare";
  controller = gpt "oc-c-0000000000000010" ∷ [];
  agents =
      ("repository-explorer", gpt "oc-c-0000000000000011" ∷ [])
      ∷ ("repository-verifier", gpt "oc-c-0000000000000012" ∷ [])
      ∷ ("correctness-critic", gpt "oc-c-0000000000000013" ∷ [])
      ∷ ("architecture-advisor", gpt "oc-c-0000000000000014" ∷ [])
      ∷ ("implementation-worker", gpt "oc-c-0000000000000015" ∷ [])
      ∷ ("planning-advisor", gpt "oc-c-0000000000000016" ∷ [])
      ∷ [];
}

abbrev both : NormalizedStacks
both = record canonical { stacks = ("spare", spare) ∷ canonical.stacks }

abbrev pub digest : String → String → ℕ → String → String
digest stack scope n model = model

abbrev pub lock : String × String
lock = ("oc-c-0000000000000000", work.id)

abbrev locks : StackBindings
locks = record { candidate_accounts = lock ∷ ("oc-c-0000000000000010", work.id) ∷ [] }

abbrev pub left : StackBindings
left = record { candidate_accounts = lock ∷ [] }

abbrev projects : Json
projects = object (("contexts", array (object (("modelStack", str "main") ∷ []) ∷ [])) ∷ [])

-- An account of the provider that the candidates allow.
abbrev pub server : Account
server = record work { provider = "openai" }

locks_valid : validate_stack_bindings both locks (server ∷ []) ≡ ok tt
unfolding validate_stack_bindings candidates_in joined candidates_by_id active_by_id is_compatible
    has_key lookup insert string_eq nat_eq
locks_valid = refl

validate_stack_bindings-IsLock_example : IsLock both (server ∷ []) lock
validate_stack_bindings-IsLock_example =
    validate_stack_bindings-IsLock both locks (server ∷ []) lock locks_valid (inl refl)

deleted : delete_stack digest both locks "spare" projects ≡ ok (canonical, left)
unfolding delete_stack without_stack erase_in erase contexts_of is_reference kept candidate_ids
    candidates_in joined check_entries new_bindings accounts_json is_account_id
    normalize_model_stacks parse_stacks stacks_from parse_stack stack_agents agents_from
    scope_candidates candidate_list candidates_from candidate candidate_text is_candidate_id
    matches_hex16 strip_prefix is_hex identifiers parse_routes agent_candidates are_agents schema_of
    provider_routes add_ids upstream_of family_of routes_of one_family distinct_routes parse_models
    parse_entries parse_model parse_definition items_of fields_of stack_name model_id reraised
    identifier exact is_model_id is_stack_name distinct is_identifier item has_exactly sorted
    insert_sorted has_key insert lookup ◌<>◌ every size is_alnum is_digit is_upper is_lower matches
    validate_stack_name validate_model_id string_eq nat_eq option_eq serialize_model_stacks
    serialize_model serialize_stack serialize_candidates serialize_candidate str_leb
deleted = refl

delete_stack-IsDeleted_example : IsDeleted digest both locks "spare" projects canonical left
delete_stack-IsDeleted_example =
    delete_stack-IsDeleted digest both locks "spare" projects canonical left deleted
