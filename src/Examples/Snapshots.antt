-- ===== src/Examples/Snapshots.antt =====
-- A snapshot of the sample document, and a restoration.
use orichum.Base.{◌≡◌, ◌⊎◌, refl, none, some, [], ◌∷◌, string_eq, nat_eq, option_eq}
use orichum.Base.Dict.{lookup, insert, has_key}
use orichum.Base.Sort.{sorted, insert_sorted}
use orichum.Base.Text.{
  matches, is_lower, is_upper, is_digit, is_alnum, is_hex, size, every, ◌<>◌, strip_prefix,
  matches_hex16, str_leb,
}
use orichum.Json.{has_exactly, item}
use orichum.Account.{is_identifier, is_account_id}
use orichum.Account.Registry.{distinct}
use orichum.ModelRouting.{is_stack_name, is_model_id, validate_stack_name, validate_model_id}
use orichum.ModelStacks.{
  is_candidate_id, exact, identifier, reraised, model_id, stack_name, fields_of, items_of,
  parse_routes, parse_definition, parse_model, parse_entries, parse_models, identifiers,
  distinct_routes, one_family,
}
use orichum.ModelStacks.Normalize.{
  routes_of, family_of, upstream_of, candidate_text, add_ids, candidate, candidates_from,
  provider_routes, candidate_list, schema_of, are_agents, agent_candidates, scope_candidates,
  agents_from, stack_agents, parse_stack, stacks_from, parse_stacks, normalize_model_stacks,
}
use orichum.ModelStacks.Serialize.{
  serialize_model_stacks, serialize_model, serialize_stack, serialize_candidate,
  serialize_candidates,
}
use orichum.StackBindings.{
  document, accounts_json, stack_binding_digest, load_stack_bindings, decode, decode_document,
  new_bindings, check_entries, is_version_1,
}
use orichum.StackStore.{joined, candidates_in, kept, candidate_ids}
use orichum.StackStore.Disk.{
  World, returned, done, fails, get, call, read, optional_private_bytes, file_bytes,
}
use orichum.StackStore.Recovery.{
  phase_name, marker_json, phase_of, is_first_version, existed_of, marker_of,
  load_transaction_marker, discard_copies, discard_first, resume, recover_transaction,
}
use orichum.StackStore.Recovery.Atomic.{IsSettled}
use orichum.StackStore.Save.{lift, read_digest}
use orichum.StackStore.Save.Published.{Both}
use orichum.StackStore.Save.Saved.{IsStore}
use orichum.Examples.Removal.{digest}
use orichum.Examples.Transaction.{library, laws, json_of, before, start, before-IsStore, snapshot}
use orichum.StackStore.Restore.{restore_stack_files}
use orichum.StackStore.Restore.Restored.{restore_stack_files-IsStore}
use orichum.StackStore.Snapshot.{
  load_stack_snapshot, read_bindings, decode_stacks, current_bindings, as_store_error,
}
use orichum.StackStore.Snapshot.Loaded.{IsSnapshot, load_stack_snapshot-IsSnapshot}

loaded :
    load_stack_snapshot library digest (start [])
    ≡ (returned snapshot, record { files = before; outcomes = [] })
unfolding read_digest lift recover_transaction resume discard_first discard_copies
    load_transaction_marker marker_of file_bytes optional_private_bytes read call get
    stack_binding_digest document accounts_json candidates_in joined json_of marker_json phase_name
    phase_of is_first_version existed_of normalize_model_stacks parse_stacks stacks_from parse_stack
    stack_agents agents_from scope_candidates candidate_list candidates_from candidate
    candidate_text is_candidate_id matches_hex16 strip_prefix is_hex identifiers parse_routes
    agent_candidates are_agents schema_of provider_routes add_ids upstream_of family_of routes_of
    one_family distinct_routes parse_models parse_entries parse_model parse_definition items_of
    fields_of stack_name model_id reraised identifier exact is_model_id is_stack_name distinct
    is_identifier item has_exactly sorted insert_sorted has_key insert lookup ◌<>◌ every size
    is_alnum is_digit is_upper is_lower matches validate_stack_name validate_model_id string_eq
    nat_eq option_eq serialize_model_stacks serialize_model serialize_stack serialize_candidates
    serialize_candidate str_leb load_stack_snapshot read_bindings decode_stacks current_bindings
    as_store_error load_stack_bindings decode decode_document new_bindings check_entries kept
    candidate_ids is_account_id is_version_1
loaded = refl

load_stack_snapshot-IsSnapshot_example :
    IsSettled library (Both "old" (some "locks")) before
    × IsSnapshot library digest "old" (some "locks") snapshot
load_stack_snapshot-IsSnapshot_example =
    load_stack_snapshot-IsSnapshot library laws digest "old" (some "locks") refl refl (start [])
      (record { files = before; outcomes = [] }) snapshot before-IsStore loaded

-- The third call fails.
abbrev failing : World
failing = start (done ∷ done ∷ fails ∷ [])

restore_stack_files-IsStore_example :
    let x = restore_stack_files library "old" (some "locks") (some "first") none failing in
    (IsStore library "old" (some "locks") x.1.files ⊎ IsStore library "first" none x.1.files)
    × ((w' : World)
        → x ≡ (returned tt, w')
        → IsSettled library (Both "first" none) w'.files
          × (library.hash "old" ≡ "old")
          × (stack_binding_digest library (some "locks") ≡ some "locks"))
restore_stack_files-IsStore_example =
    restore_stack_files-IsStore library laws "old" (some "locks") "first" none refl refl refl tt
      "old" (some "locks") failing before-IsStore
