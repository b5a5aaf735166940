-- ===== src/Examples/Faults.antt =====
-- Two failures that the transaction does not bear, with the calls of `publish` counted from the first.
use orichum.Base.{ℕ, zero, suc, ◌≡◌, refl, none, some, List, [], ◌∷◌, ◌++◌, string_eq, nat_eq}
use orichum.Base.Dict.{lookup}
use orichum.Json.{has_exactly, item}
use orichum.StackStore.{StoreError}
use orichum.StackStore.Disk.{
  Files, returned, raised, stopped, Outcome, done, fails, stops, get, set, call, read, replace,
  unlink, stage, fsync_directory, replace_private_file, optional_private_bytes,
}
use orichum.StackStore.Recovery.{
  phase_name, marker_json, phase_of, is_first_version, existed_of, parse_marker, marker_payload,
  write_transaction_marker, marker_of, load_transaction_marker, unlink_given,
  remove_recovery_artifacts, cleanup_after_commit, given_original, stage_given, put_binding,
  check_original, restore_originals, finish_recovery, restore, resume, recover_transaction,
  rollback_transaction,
}
use orichum.StackStore.Save.{saved_error, keep_original, put_given, prepare, commit, undo, publish}
use orichum.Examples.Transaction.{library, name_of, json_of, start, after_save}

dones : ℕ → List Outcome
dones zero = []
dones (suc n) = done ∷ dones n

-- The directory's `fsync` fails after the marker is written, and the process is stopped while it tidies
-- up: the marker stays without the copies, and no recovery can proceed.
abbrev stuck : Files
stuck = record {
  model = some "old";
  bindings = some "locks";
  model_copy = none;
  binding_copy = some "locks";
  marker = some "pending, with bindings";
}

stuck_save :
    publish library "old"
      (some "locks")
      "document"
      (some "document")
      (start (dones 9 ++ fails ∷ done ∷ done ∷ stops ∷ []))
    ≡ (stopped, record { files = stuck; outcomes = [] })
unfolding dones publish prepare commit put_given keep_original cleanup_after_commit
    remove_recovery_artifacts unlink_given write_transaction_marker stage_given
    optional_private_bytes replace_private_file fsync_directory stage unlink replace read call set
    get saved_error json_of name_of marker_payload parse_marker marker_json phase_name phase_of
    is_first_version existed_of has_exactly item lookup string_eq nat_eq
stuck_save = refl

-- The last `fsync` fails, then the rollback's marker, then its second file.
abbrev mixed : Files
mixed = record {
  model = some "old";
  bindings = some "document";
  model_copy = some "old";
  binding_copy = some "locks";
  marker = some "committed, with bindings";
}

mixed_save :
    (publish library "old"
      (some "locks")
      "document"
      (some "document")
      (start (dones 15 ++ fails ∷ fails ∷ dones 5 ++ stops ∷ []))).1.files
    ≡ mixed
unfolding dones undo rollback_transaction restore_originals given_original check_original
    put_binding publish prepare commit put_given keep_original cleanup_after_commit
    remove_recovery_artifacts unlink_given write_transaction_marker stage_given
    optional_private_bytes replace_private_file fsync_directory stage unlink replace read call set
    get saved_error json_of name_of marker_payload parse_marker marker_json phase_name phase_of
    is_first_version existed_of has_exactly item lookup string_eq nat_eq
mixed_save = refl

stuck_recovery :
    recover_transaction library (record { files = stuck; outcomes = [] })
    ≡ (raised StoreError.no_original, record { files = stuck; outcomes = [] })
unfolding recover_transaction resume restore restore_originals given_original check_original
    finish_recovery put_binding load_transaction_marker marker_of cleanup_after_commit
    remove_recovery_artifacts unlink_given optional_private_bytes read unlink call set get
    fsync_directory json_of name_of marker_payload parse_marker marker_json phase_name phase_of
    is_first_version existed_of has_exactly item lookup string_eq nat_eq
stuck_recovery = refl

mixed_recovery :
    recover_transaction library (record { files = mixed; outcomes = [] })
    ≡ (returned tt, record { files = record after_save { model = some "old" }; outcomes = [] })
unfolding recover_transaction resume restore load_transaction_marker marker_of cleanup_after_commit
    remove_recovery_artifacts unlink_given optional_private_bytes read unlink call set get
    fsync_directory json_of name_of marker_payload parse_marker marker_json phase_name phase_of
    is_first_version existed_of has_exactly item lookup string_eq nat_eq
mixed_recovery = refl
