-- ===== src/StackStore/Restore.antt =====
-- The installer's restoration of the two files, if no later writer has changed them.
pub mod Restored
use orichum.Base.{String, Option, none, some}
use orichum.StackBindings.{Library}
use orichum.StackStore.Disk.{
  is_given, model_path, binding_path, model_original, Act, ◌>>=◌, ◌>>◌, unlink, fsync_directory,
  replace_private_file, file_bytes,
}
use orichum.StackStore.Recovery.{pending, max_config, write_transaction_marker, recover_transaction}
use orichum.StackStore.Save.{check_current, keep_original}

module _ (lib : Library) where
  -- What follows the test of the files. A model that did not exist is removed with the bindings.
  unfoldable pub put_originals : Option String → Option String → Act (Unit {0})
  put_originals none original_binding = do unlink binding_path; unlink model_path; fsync_directory
  put_originals (some original_model) original_binding = do
    replace_private_file model_original original_model
    keep_original original_binding
    write_transaction_marker lib pending (is_given original_binding)
    fsync_directory
    recover_transaction lib

  unfoldable pub restore_stack_files :
      String → Option String → Option String → Option String → Act (Unit {0})
  restore_stack_files expected_stack expected_binding original_model original_binding = do
    recover_transaction lib
    current ← file_bytes lib.length_of max_config model_path
    check_current lib expected_stack expected_binding current
    put_originals original_model original_binding
