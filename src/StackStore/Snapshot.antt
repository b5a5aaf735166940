-- ===== src/StackStore/Snapshot.antt =====
-- The snapshot of the two files, with the locks of the candidates that there are.
pub mod Loaded
use orichum.Base.{ℕ, String, Option, none, some, ◌==◌, option_eq, string_eq}
use orichum.Base.Result.{Result, ok, err}
use orichum.ModelStacks.{NormalizedStacks}
use orichum.ModelStacks.Normalize.{normalize_model_stacks}
use orichum.StackBindings.{
  BindingError, StackBindings, Library, new_bindings, accounts_json, load_stack_bindings,
}
use orichum.StackStore.{StoreError, Checked, kept}
use orichum.StackStore.Disk.{
  model_path, binding_path, Act, pure, check, ◌>>=◌, ◌>>◌, optional_private_bytes, file_bytes,
}
use orichum.StackStore.Recovery.{max_config, max_binding, recover_transaction}
use orichum.StackStore.Save.{StackSnapshot, lift, read_digest}

-- `except StackBindingError`
unfoldable pub as_store_error : {A : Type 0} → Result BindingError A → Checked A
as_store_error (ok a) = ok a
as_store_error (err e) = err (StoreError.bad_bindings e)

-- The locks of the candidates that there are.
unfoldable pub current_bindings : NormalizedStacks → StackBindings → Checked StackBindings
current_bindings v bindings =
    as_store_error (new_bindings (accounts_json (record { candidate_accounts = kept v bindings })))

module _ (lib : Library) (digest : String → String → ℕ → String → String) where
  unfoldable pub decode_stacks : String → Checked NormalizedStacks
  decode_stacks content = elim (lib.loads content) [
    | none ↦ err StoreError.bad_document
    | some raw ↦ elim (normalize_model_stacks digest raw) [
      | err e ↦ err (StoreError.bad_stacks e)
      | ok v ↦ ok v
    ]
  ]

  -- The transaction's `load`.
  unfoldable pub read_bindings : Act StackBindings
  read_bindings = optional_private_bytes lib.length_of max_binding binding_path >>= λ o.
      lift (as_store_error (load_stack_bindings lib o))

  unfoldable pub load_stack_snapshot : Act StackSnapshot
  load_stack_snapshot = do
    recover_transaction lib
    model_content ← file_bytes lib.length_of max_config model_path
    stacks ← lift (decode_stacks model_content)
    binding_digest ← read_digest lib
    bindings ← read_bindings
    again ← read_digest lib
    check (again == binding_digest) StoreError.changed
    current ← lift (current_bindings stacks bindings)
    pure (record {
      stacks = stacks;
      bindings = current;
      stack_digest = lib.hash model_content;
      binding_digest = binding_digest;
    })
