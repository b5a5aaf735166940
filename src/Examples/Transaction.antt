-- ===== src/Examples/Transaction.antt =====
-- A save of the sample document, done and cut short, with a library whose texts are short names.
use orichum.Base.{
  ◌≡◌, ◌⊎◌, true, false, Bool, inl, inr, refl, none, some, Option, String, List, [], ◌∷◌, ◌==◌,
  string_eq, nat_eq, option_eq, if◌then◌else◌,
}
use orichum.Base.Dict.{lookup, insert, has_key}
use orichum.Base.Result.{Result, ok}
use orichum.Base.Sort.{sorted, insert_sorted}
use orichum.Base.Text.{
  matches, is_lower, is_upper, is_digit, is_alnum, is_hex, size, every, ◌<>◌, strip_prefix,
  matches_hex16, str_leb,
}
use orichum.Json.{Json, null, has_exactly, item}
use orichum.Account.{Account, AccountError, is_identifier}
use orichum.Account.Registry.{distinct}
use orichum.ModelRouting.{is_stack_name, is_model_id, validate_stack_name, validate_model_id}
use orichum.ModelStacks.{
  is_candidate_id, exact, identifier, reraised, model_id, stack_name, fields_of, items_of,
  parse_routes, parse_definition, parse_model, parse_entries, parse_models, identifiers,
  distinct_routes, one_family,
}
use orichum.ModelStacks.Normalize.{
  routes_of, family_of, upstream_of, candidate_text, add_ids, candidate, candidates_from,
  provider_routes, candidate_list, schema_of, are_agents, agent_candidates, scope_candidates,
  agents_from, stack_agents, parse_stack, stacks_from, parse_stacks, normalize_model_stacks,
}
use orichum.ModelStacks.Serialize.{
  serialize_model_stacks, serialize_model, serialize_stack, serialize_candidate,
  serialize_candidates,
}
use orichum.StackBindings.{Library, document, accounts_json, stack_binding_digest, is_empty}
use orichum.StackStore.{
  joined, candidates_in, candidates_by_id, active_by_id, is_compatible, validate_stack_bindings,
}
use orichum.StackStore.Disk.{
  Files, World, returned, Outcome, done, fails, stops, get, set, call, read, replace, unlink, stage,
  fsync_directory, replace_private_file, optional_private_bytes, file_bytes,
}
use orichum.StackStore.Recovery.{
  Phase, pending, committed, phase_name, marker_json, phase_of, is_first_version, existed_of,
  parse_marker, marker_payload, write_transaction_marker, marker_of, load_transaction_marker,
  unlink_given, remove_recovery_artifacts, cleanup_after_commit, stage_given, discard_copies,
  discard_first, resume, recover_transaction,
}
use orichum.StackStore.Recovery.Atomic.{MarkerLaws, IsSettled, IsPrepared}
use orichum.StackStore.Recovery.Finished.{recover_transaction-IsAtomic}
use orichum.StackStore.Save.{
  StackSnapshot, same_list, same_dict, same_candidate, same_model, same_definition, same_stacks,
  lift, validate_bindings, keep_original, put_given, limited, serialize_bindings, binding_payload,
  read_digest, check_current, read_original, prepare, commit, publish, serialize_stacks,
  planned_stack_digests, save_stack_at,
}
use orichum.StackStore.Save.Published.{Both, OneOf}
use orichum.StackStore.Save.Saved.{IsStore, IsSaved, IsPlanned}
use orichum.StackStore.Save.Refined.{
  recoveries, save_stack_at-IsSaved, save_stack_at-OldOrNew, save_stack_at-planned,
}
use orichum.Examples.Documents.{canonical}
use orichum.Examples.Removal.{digest, left, server}

abbrev pub label : Phase → Bool → String
label pending true = "pending, with bindings"
label pending false = "pending"
label committed true = "committed, with bindings"
label committed false = "committed"

unfoldable pub name_of : Json → String
unfolding parse_marker has_exactly item lookup phase_of is_first_version existed_of
name_of v = elim (parse_marker v) [ none ↦ "document" | some r ↦ label r.state r.binding_existed ]

unfoldable pub json_of : String → Option Json
unfolding marker_json phase_name
json_of s =
    if s == "pending, with bindings"
    then some (marker_json pending true)
    else if s == "pending"
    then some (marker_json pending false)
    else if s == "committed, with bindings"
    then some (marker_json committed true)
    else if s == "committed"
    then some (marker_json committed false)
    else if s == "old"
    then some (serialize_model_stacks canonical)
    else if s == "locks"
    then some (document left)
    else some null

abbrev pub library : Library
library = record { loads = json_of; dumps = name_of; hash = λ s. s; length_of = λ s. 100 }

reads : (p : Phase) (e : Bool) → json_of (marker_payload library p e) ≡ some (marker_json p e)
unfolding json_of name_of marker_payload parse_marker marker_json phase_name phase_of
    is_first_version existed_of has_exactly item lookup string_eq nat_eq
reads pending true = refl
reads pending false = refl
reads committed true = refl
reads committed false = refl

pub laws : MarkerLaws library
laws = record { reads = reads; small = λ p e. refl }

abbrev pub before : Files
before = record {
  model = some "old";
  bindings = some "locks";
  model_copy = none;
  binding_copy = none;
  marker = none;
}

abbrev pub after_save : Files
after_save = record before { model = some "document"; bindings = some "document" }

abbrev pub snapshot : StackSnapshot
snapshot = record {
  stacks = canonical;
  bindings = left;
  stack_digest = "old";
  binding_digest = some "locks";
}

abbrev registry : Result AccountError (List Account)
registry = ok (server ∷ [])

abbrev pub start : List Outcome → World
start os = record { files = before; outcomes = os }

pub before-IsStore : IsStore library "old" (some "locks") before
before-IsStore =
    inl (record { marked = inl refl; good = (refl, refl); short_model = tt; short_binding = tt })

saved :
    save_stack_at library digest registry snapshot canonical left (start [])
    ≡ (returned tt, record { files = after_save; outcomes = [] })
unfolding save_stack_at publish prepare commit put_given keep_original read_original check_current
    read_digest binding_payload serialize_bindings limited serialize_stacks validate_bindings lift
    same_stacks same_definition same_model same_candidate same_dict same_list recover_transaction
    resume discard_first discard_copies load_transaction_marker marker_of cleanup_after_commit
    remove_recovery_artifacts unlink_given write_transaction_marker marker_payload stage_given
    file_bytes optional_private_bytes replace_private_file fsync_directory stage unlink replace read
    call set get stack_binding_digest is_empty document accounts_json validate_stack_bindings
    candidates_in joined candidates_by_id active_by_id is_compatible name_of json_of parse_marker
    marker_json phase_name phase_of is_first_version existed_of normalize_model_stacks parse_stacks
    stacks_from parse_stack stack_agents agents_from scope_candidates candidate_list candidates_from
    candidate candidate_text is_candidate_id matches_hex16 strip_prefix is_hex identifiers
    parse_routes agent_candidates are_agents schema_of provider_routes add_ids upstream_of family_of
    routes_of one_family distinct_routes parse_models parse_entries parse_model parse_definition
    items_of fields_of stack_name model_id reraised identifier exact is_model_id is_stack_name
    distinct is_identifier item has_exactly sorted insert_sorted has_key insert lookup ◌<>◌ every
    size is_alnum is_digit is_upper is_lower matches validate_stack_name validate_model_id string_eq
    nat_eq option_eq serialize_model_stacks serialize_model serialize_stack serialize_candidates
    serialize_candidate str_leb
saved = refl

save_stack_at-IsSaved_example :
    IsSaved library digest registry snapshot canonical left "old" (some "locks") after_save
save_stack_at-IsSaved_example =
    save_stack_at-IsSaved library laws digest registry snapshot canonical left "old" (some "locks")
      refl refl (start []) (record { files = after_save; outcomes = [] }) before-IsStore saved

save_stack_at-planned_example :
    (m : String) × (after_save.model ≡ some m)
    × (planned_stack_digests library digest snapshot canonical left
        ≡ ok (library.hash m, stack_binding_digest library after_save.bindings))
save_stack_at-planned_example =
    save_stack_at-planned library laws digest registry snapshot canonical left "old" (some "locks")
      refl refl (start []) (record { files = after_save; outcomes = [] }) before-IsStore saved

-- Stopped between the two files.
abbrev midway : World
midway = start (
    done ∷ done ∷ done ∷ done ∷ done ∷ done ∷ done ∷ done ∷ done ∷ done ∷ done ∷ done ∷ done ∷ done
    ∷ done ∷ done ∷ done ∷ stops ∷ [])

save_stack_at-OldOrNew_example :
    let files = (save_stack_at library digest registry snapshot canonical left midway).1.files in
    (w' : World) × (recover_transaction library
        (record { files = recoveries library ((done ∷ stops ∷ []) ∷ []) files; outcomes = [] })
      ≡ (returned tt, w'))
    × (Both "old" (some "locks") w'.files.model w'.files.bindings
        ⊎ ((m1 : String) × (b1 : Option String) × IsPlanned library digest canonical left
              (some "locks")
              m1
              b1
            × Both m1 b1 w'.files.model w'.files.bindings))
save_stack_at-OldOrNew_example =
    save_stack_at-OldOrNew library laws digest registry snapshot canonical left "old" (some "locks")
      refl refl midway ((done ∷ stops ∷ []) ∷ []) (refl, tt) before-IsStore

-- An open transaction, with the old bindings replaced.
abbrev cut : Files
cut = record {
  model = some "old";
  bindings = some "document";
  model_copy = some "old";
  binding_copy = some "locks";
  marker = some "pending, with bindings";
}

abbrev IsOldOrNew : Files → Type 0
IsOldOrNew x =
    IsSettled library (OneOf "old" (some "locks") "document" (some "document")) x
    ⊎ IsPrepared library "old" (some "locks") x

cut-IsPrepared : IsPrepared library "old" (some "locks") cut
unfolding json_of name_of marker_payload parse_marker marker_json phase_name phase_of
    is_first_version existed_of has_exactly item lookup string_eq nat_eq
cut-IsPrepared = record { marked = refl; model_kept = refl; binding_kept = refl }

recover_transaction-IsAtomic_example :
    IsOldOrNew
      (recover_transaction library (record { files = cut; outcomes = done ∷ fails ∷ [] })).1.files
recover_transaction-IsAtomic_example =
    recover_transaction-IsAtomic library laws
      (OneOf "old" (some "locks") "document" (some "document")) "old" (some "locks")
      (inl (refl, refl)) refl refl (record { files = cut; outcomes = done ∷ fails ∷ [] })
      (inr cut-IsPrepared)
