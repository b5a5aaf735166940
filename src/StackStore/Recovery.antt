-- ===== src/StackStore/Recovery.antt =====
-- The transaction's marker, the restoration of the two files from their copies, and the recovery that
-- begins every use of the files.
pub mod Atomic
pub mod Finished
use orichum.Base.{
  ℕ, String, Bool, true, false, not, ◌&&◌, Option, none, some, List, [], ◌∷◌, pos, leb, ◌==◌,
  nat_eq, string_eq, if◌then◌else◌,
}
use orichum.Base.Dict.{Dict}
use orichum.Json.{Json, bool, int, str, obj, object, entries, has_exactly, item}
use orichum.StackStore.{StoreError}
use orichum.StackBindings.{Library}
use orichum.StackStore.Disk.{
  FilePath, model_path, binding_path, model_original, binding_original, marker_path, World, Exit,
  Act, pure, raise, ◌>>=◌, ◌>>◌, rescue, check, replace, unlink, stage, fsync_directory,
  replace_private_file, optional_private_bytes, file_bytes,
}

-- `_TRANSACTION_STATES`
pub data Phase : Type 0 where
  pending committed : Phase

unfoldable pub phase_name : Phase → String
phase_name pending = "pending"
phase_name committed = "committed"

pub record TransactionState : Type 0 where
  pub state : Phase
  pub binding_existed : Bool

-- `MAX_CONFIG_BYTES` and `MAX_BINDING_BYTES`
abbrev pub max_config : ℕ
max_config = 2097152

abbrev pub max_binding : ℕ
max_binding = 1048576

unfoldable pub marker_json : Phase → Bool → Json
marker_json state existed = object (
    ("bindingExisted", bool existed)
    ∷ ("schemaVersion", int (pos 1))
    ∷ ("state", str (phase_name state))
    ∷ [])

-- The states are in a set of Python, so a state that has no hash, a list or an object, raises a
-- TypeError there; it is no state here.
unfoldable pub phase_of : Json → Option Phase
phase_of (str s) =
    if s == "pending" then some pending else if s == "committed" then some committed else none
phase_of _ = none

unfoldable pub is_first_version : Json → Bool
is_first_version (int (pos n)) = n == 1
is_first_version _ = false

unfoldable pub existed_of : Json → Option Bool
existed_of (bool b) = some b
existed_of _ = none

-- What a marker's document says, if it is valid.
unfoldable pub parse_marker : Json → Option TransactionState
parse_marker (obj fs) =
    if has_exactly ("schemaVersion" ∷ "state" ∷ "bindingExisted" ∷ []) (entries fs)
      && is_first_version (item "schemaVersion" (entries fs))
    then elim (phase_of (item "state" (entries fs))) [
      | none ↦ none
      | some state ↦ elim (existed_of (item "bindingExisted" (entries fs))) [
        | none ↦ none
        | some existed ↦ some (record { state = state; binding_existed = existed })
      ]
    ]
    else none
parse_marker _ = none

module _ (lib : Library) where
  unfoldable pub marker_payload : Phase → Bool → String
  marker_payload state existed = lib.dumps (marker_json state existed)

  unfoldable pub write_transaction_marker : Phase → Bool → Act (Unit {0})
  write_transaction_marker state existed =
      replace_private_file marker_path (marker_payload state existed)

  -- A text that was read.
  unfoldable pub marker_of : Option String → Act (Option TransactionState)
  marker_of none = pure none
  marker_of (some text) = elim (lib.loads text) [
    | none ↦ raise StoreError.bad_marker
    | some raw ↦ elim (parse_marker raw) [
      | none ↦ raise StoreError.bad_marker
      | some marker ↦ pure (some marker)
    ]
  ]

  unfoldable pub load_transaction_marker : Act (Option TransactionState)
  load_transaction_marker = optional_private_bytes lib.length_of 4096 marker_path >>= marker_of

  unfoldable pub unlink_given : FilePath → Option String → Act (Unit {0})
  unlink_given p none = pure tt
  unlink_given p (some text) = unlink p

  unfoldable pub remove_recovery_artifacts : Act (Unit {0})
  remove_recovery_artifacts = do
    m ← optional_private_bytes lib.length_of max_config model_original
    unlink_given model_original m
    b ← optional_private_bytes lib.length_of max_config binding_original
    unlink_given binding_original b
    marker ← optional_private_bytes lib.length_of 4096 marker_path
    unlink_given marker_path marker
    fsync_directory

  unfoldable pub cleanup_after_commit : Act (Unit {0})
  cleanup_after_commit = rescue remove_recovery_artifacts (λ e. pure tt)

  unfoldable pub given_original : Option String → Act String
  given_original none = raise StoreError.no_original
  given_original (some text) = pure text

  unfoldable pub stage_given : Option String → Act (Unit {0})
  stage_given none = pure tt
  stage_given (some text) = stage

  -- `None` only where the file did not exist.
  unfoldable pub put_binding : Bool → Option String → Act (Unit {0})
  put_binding true (some text) = replace binding_path text
  put_binding true none = raise StoreError.no_original
  put_binding false original = unlink binding_path

  unfoldable pub check_original : Bool → Option String → Act (Unit {0})
  check_original true none = raise StoreError.no_original
  check_original _ _ = pure tt

  unfoldable pub restore_originals : Bool → Act (Unit {0})
  restore_originals existed = do
    found ← optional_private_bytes lib.length_of max_config model_original
    original_model ← given_original found
    original_binding ← optional_private_bytes lib.length_of max_binding binding_original
    check_original existed original_binding
    stage
    stage_given original_binding
    replace model_path original_model
    put_binding existed original_binding
    fsync_directory

  unfoldable pub finish_recovery : Bool → Act (Unit {0})
  finish_recovery existed = do
    write_transaction_marker committed existed
    fsync_directory
    cleanup_after_commit

  unfoldable pub discard_copies : Option String → Act (Unit {0})
  discard_copies none = pure tt
  discard_copies (some text) = cleanup_after_commit

  unfoldable pub discard_first : Option String → Act (Unit {0})
  discard_first none =
      optional_private_bytes lib.length_of max_config binding_original >>= discard_copies
  discard_first (some text) = cleanup_after_commit

  unfoldable pub restore : Phase → Bool → Act (Unit {0})
  restore pending existed = do restore_originals existed; finish_recovery existed
  restore committed existed = cleanup_after_commit

  unfoldable pub resume : Option TransactionState → Act (Unit {0})
  resume none = optional_private_bytes lib.length_of max_config model_original >>= discard_first
  resume (some marker) = restore marker.state marker.binding_existed

  unfoldable pub recover_transaction : Act (Unit {0})
  recover_transaction = load_transaction_marker >>= resume

  -- The marker's error is raised only after the files are restored.
  unfoldable pub rollback_transaction : Bool → Act (Unit {0})
  rollback_transaction existed = do
    marked ← rescue (write_transaction_marker pending existed >>= λ _. pure true) (λ e. pure false)
    rescue (do restore_originals existed; finish_recovery existed)
        (λ e. raise StoreError.rollback_failed)
    check marked StoreError.rollback_failed
