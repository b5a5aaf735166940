-- ===== src/StackStore/Save.antt =====
-- The two texts that a save publishes, and the save itself: the copies and the marker first, then the
-- two files, then the marker again.
pub mod Published
pub mod Saved
pub mod Refined
use orichum.Base.{
  ℕ, String, Bool, true, false, not, ◌&&◌, Option, none, some, List, [], ◌∷◌, leb, ◌==◌, string_eq,
  option_eq, all, if◌then◌else◌,
}
use orichum.Base.Dict.{Dict, lookup, has_key}
use orichum.Base.Result.{Result, ok, err}
use orichum.Account.{Account, AccountError}
use orichum.ModelStacks.{ModelDefinition, StackCandidate, Definition, NormalizedStacks}
use orichum.ModelStacks.Normalize.{normalize_model_stacks}
use orichum.ModelStacks.Serialize.{serialize_model_stacks}
use orichum.StackBindings.{StackBindings, Library, document, stack_binding_digest, is_empty}
use orichum.StackStore.{StoreError, Checked, validate_stack_bindings}
use orichum.StackStore.Disk.{
  is_given, model_path, binding_path, model_original, binding_original, Act, pure, raise, ◌>>=◌,
  ◌>>◌, rescue, check, replace, unlink, stage, fsync_directory, replace_private_file,
  optional_private_bytes, file_bytes,
}
use orichum.StackStore.Recovery.{
  pending, committed, max_config, max_binding, write_transaction_marker, cleanup_after_commit,
  stage_given, recover_transaction, rollback_transaction,
}

-- Equality of tuples, and of mappings, which have no order.
unfoldable pub same_list : {A : Type 0} → (A → A → Bool) → List A → List A → Bool
same_list same [] [] = true
same_list same (x ∷ xs) (y ∷ ys) = same x y && same_list same xs ys
same_list same _ _ = false

unfoldable pub same_dict : {A : Type 0} → (A → A → Bool) → Dict String A → Dict String A → Bool
same_dict same d e =
    all (λ x. elim (lookup x.0 e) [ none ↦ false | some v ↦ same x.1 v ]) d
    && all (λ x. has_key x.0 d) e

unfoldable pub same_candidate : StackCandidate → StackCandidate → Bool
same_candidate a b =
    a.id == b.id && a.model == b.model && same_list (λ x y. x == y) a.providers b.providers

unfoldable pub same_model : ModelDefinition → ModelDefinition → Bool
same_model a b = a.family == b.family && same_dict (λ x y. x == y) a.routes b.routes

unfoldable pub same_definition : Definition → Definition → Bool
same_definition a b =
    a.name == b.name
    && same_list same_candidate a.controller b.controller
    && same_dict (same_list same_candidate) a.agents b.agents

unfoldable pub same_stacks : NormalizedStacks → NormalizedStacks → Bool
same_stacks a b =
    a.default_stack == b.default_stack
    && same_dict same_model a.models b.models
    && same_dict same_definition a.stacks b.stacks

pub record StackSnapshot : Type 0 where
  pub stacks : NormalizedStacks
  pub bindings : StackBindings
  pub stack_digest : String
  pub binding_digest : Option String

unfoldable pub lift : {A : Type 0} → Checked A → Act A
lift (ok a) = pure a
lift (err e) = raise e

-- A `StackStoreError` is raised again as it is.
unfoldable pub saved_error : StoreError → StoreError
saved_error StoreError.os_error = StoreError.not_saved
saved_error e = e

unfoldable pub validate_bindings :
    Result AccountError (List Account) → NormalizedStacks → StackBindings → Checked (Unit {0})
validate_bindings (err e) updated bindings = err StoreError.no_registry
validate_bindings (ok accounts) updated bindings = validate_stack_bindings updated bindings accounts

unfoldable pub keep_original : Option String → Act (Unit {0})
keep_original none = unlink binding_original
keep_original (some text) = replace_private_file binding_original text

unfoldable pub put_given : Option String → Act (Unit {0})
put_given none = pure tt
put_given (some text) = replace binding_path text

module _ (lib : Library) where
  unfoldable pub limited : ℕ → String → Checked String
  limited limit payload =
      if leb (lib.length_of payload) limit then ok payload else err StoreError.too_large

  unfoldable pub serialize_bindings : StackBindings → Checked String
  serialize_bindings updated = limited max_binding (lib.dumps (document updated))

  -- No file is made for no bindings; `existing` is what the file holds, or its digest.
  unfoldable pub binding_payload : Option String → StackBindings → Checked (Option String)
  binding_payload existing updated =
      if existing == none && is_empty updated
      then ok none
      else elim (serialize_bindings updated) [ err e ↦ err e | ok text ↦ ok (some text) ]

  -- The transaction's `digest`.
  unfoldable pub read_digest : Act (Option String)
  read_digest = optional_private_bytes lib.length_of max_binding binding_path >>= λ o.
      pure (stack_binding_digest lib o)

  unfoldable pub check_current : String → Option String → String → Act (Unit {0})
  check_current stack_digest binding_digest current = do
    check (lib.hash current == stack_digest) StoreError.changed
    observed ← read_digest
    check (observed == binding_digest) StoreError.changed

  unfoldable pub read_original : Option String → Act (Option String)
  read_original none = pure none
  read_original (some d) =
      file_bytes lib.length_of max_binding binding_path >>= λ text. pure (some text)

  -- Up to `recovery_ready = True`.
  unfoldable pub prepare : String → Option String → Option String → Act (Unit {0})
  prepare current original payload = do
    stage
    stage_given lib payload
    replace_private_file model_original current
    keep_original original
    fsync_directory
    write_transaction_marker lib pending (is_given original)
    fsync_directory

  -- Up to `durable_commit = True`.
  unfoldable pub commit : String → Option String → Option String → Act (Unit {0})
  commit model_payload original payload = do
    put_given payload
    replace model_path model_payload
    fsync_directory
    write_transaction_marker lib committed (is_given original)
    fsync_directory

  unfoldable pub undo : Option String → Act (Unit {0})
  undo original =
      rescue (rollback_transaction lib (is_given original)) (λ e. raise StoreError.rollback_failed)

  unfoldable pub publish : String → Option String → String → Option String → Act (Unit {0})
  publish current original model_payload payload = do
    rescue (prepare current original payload)
        (λ e. cleanup_after_commit lib >> raise (saved_error e))
    rescue (commit model_payload original payload) (λ e. undo original >> raise (saved_error e))
    cleanup_after_commit lib

module _ (lib : Library) (digest : String → String → ℕ → String → String) where
  unfoldable pub serialize_stacks : NormalizedStacks → Checked String
  serialize_stacks updated = elim (normalize_model_stacks digest (serialize_model_stacks updated)) [
    | err e ↦ err (StoreError.bad_stacks e)
    | ok normalized ↦
        if same_stacks normalized updated
        then limited lib max_config (lib.dumps (serialize_model_stacks updated))
        else err StoreError.not_normalized
  ]

  unfoldable pub planned_stack_digests :
      StackSnapshot → NormalizedStacks → StackBindings → Checked (String × Option String)
  planned_stack_digests snapshot updated updated_bindings = elim (serialize_stacks updated) [
    | err e ↦ err e
    | ok model_payload ↦ elim (binding_payload lib snapshot.binding_digest updated_bindings) [
      | err e ↦ err e
      | ok payload ↦ ok (lib.hash model_payload, stack_binding_digest lib payload)
    ]
  ]

  -- The locks are held from the first line on.
  unfoldable pub save_stack_at :
      Result AccountError (List Account)
      → StackSnapshot
      → NormalizedStacks
      → StackBindings
      → Act (Unit {0})
  save_stack_at registry snapshot updated updated_bindings =
      rescue
        (do
          recover_transaction lib
          current_model ← file_bytes lib.length_of max_config model_path
          check_current lib snapshot.stack_digest snapshot.binding_digest current_model
          model_payload ← lift (serialize_stacks updated)
          lift (validate_bindings registry updated updated_bindings)
          original ← read_original lib snapshot.binding_digest
          payload ← lift (binding_payload lib original updated_bindings)
          publish lib current_model original model_payload payload)
        (λ e. raise (saved_error e))
