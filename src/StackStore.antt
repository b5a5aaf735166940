-- ===== src/StackStore.antt =====
-- integrations/common/stack_store.py: which locks of candidates to accounts a user may save, and the
-- removal of a stack. `Disk`, `Recovery`, `Save`, `Restore` and `Snapshot` are the transaction of the
-- two files; `Locks`, `Left` and `Deleted` are about the operations here.
pub mod Locks
pub mod Left
pub mod Deleted
pub mod Disk
pub mod Recovery
pub mod Save
pub mod Restore
pub mod Snapshot
use orichum.Base.{
  ℕ, String, Bool, true, false, not, Option, none, some, List, [], ◌∷◌, ◌++◌, map, ◌==◌, string_eq,
  option_eq, contains, if◌then◌else◌, all, any, select,
}
use orichum.Base.Dict.{Dict, keys, values, lookup, insert, erase, has_key}
use orichum.Base.Result.{Result, ok, err, ◌>>=◌, ◌>>◌, guard}
use orichum.Json.{Json, null, str, arr, obj, object, items, entries}
use orichum.Account.{Account}
use orichum.ModelStacks.{StackError, StackCandidate, Definition, NormalizedStacks}
use orichum.ModelStacks.Normalize.{normalize_model_stacks}
use orichum.ModelStacks.Serialize.{serialize_model_stacks}
use orichum.StackBindings.{BindingError, StackBindings, new_bindings, accounts_json}

pub data StoreError : Type 0 where
  unknown_candidate inactive_account bad_provider : StoreError
  default_deleted unknown_stack bad_projects referenced : StoreError
  os_error unavailable too_large bad_marker no_original : StoreError
  changed not_normalized no_registry not_saved rollback_failed bad_document : StoreError
  bad_stacks : StackError → StoreError
  bad_bindings : BindingError → StoreError

abbrev pub Checked : Type 0 → Type 0
Checked A = Result StoreError A

unfoldable pub joined : List (List StackCandidate) → List StackCandidate
joined [] = []
joined (xs ∷ xss) = xs ++ joined xss

unfoldable pub candidates_in : List Definition → List StackCandidate
candidates_in [] = []
candidates_in (d ∷ ds) = (d.controller ++ joined (values d.agents)) ++ candidates_in ds

unfoldable pub candidate_ids : NormalizedStacks → List String
candidate_ids v = map (λ c. c.id) (candidates_in (values v.stacks))

-- The candidates by ID: the last of an ID stays.
unfoldable pub candidates_by_id :
    Dict String StackCandidate → List StackCandidate → Dict String StackCandidate
candidates_by_id d [] = d
candidates_by_id d (c ∷ cs) = candidates_by_id (insert c.id c d) cs

unfoldable pub active_by_id : Dict String Account → List Account → Dict String Account
active_by_id d [] = d
active_by_id d (a ∷ accounts) =
    active_by_id (if a.state == "active" then insert a.id a d else d) accounts

-- A lock whose account serves a provider of the candidate. Both keys are there, as was checked before.
unfoldable pub is_compatible :
    Dict String StackCandidate → Dict String Account → String × String → Bool
is_compatible candidates active (candidate, account_id) = elim (lookup candidate candidates) [
  | none ↦ false
  | some c ↦ elim (lookup account_id active) [
    | none ↦ false
    | some a ↦ contains c.providers a.provider
  ]
]

unfoldable pub validate_stack_bindings :
    NormalizedStacks → StackBindings → List Account → Checked (Unit {0})
validate_stack_bindings v bindings accounts = do
  let candidates = candidates_by_id [] (candidates_in (values v.stacks))
  guard (all (λ c. has_key c candidates) (keys bindings.candidate_accounts)) unknown_candidate
  let active = active_by_id [] accounts
  guard (all (λ a. has_key a active) (values bindings.candidate_accounts)) inactive_account
  guard (all (is_compatible candidates active) bindings.candidate_accounts) bad_provider

-- A context of the projects whose stack is this one.
unfoldable pub is_reference : String → Json → Bool
is_reference name (obj fs) = elim (lookup "modelStack" (entries fs)) [
  | some (str s) ↦ s == name
  | _ ↦ false
]
is_reference name _ = false

-- `del document["stacks"][name]`
unfoldable pub erase_in : String → Json → Json
erase_in name (obj fs) = object (erase name (entries fs))
erase_in name v = v

unfoldable pub without_stack : String → Json → Json
without_stack name (obj fs) =
    object (map (λ e. if e.0 == "stacks" then (e.0, erase_in name e.1) else e) (entries fs))
without_stack name v = v

unfoldable pub contexts_of : Json → Checked (List Json)
contexts_of (obj fs) = elim (lookup "contexts" (entries fs)) [
  | some (arr xs) ↦ ok (items xs)
  | _ ↦ err bad_projects
]
contexts_of _ = err bad_projects

-- The bindings of a document's candidates.
unfoldable pub kept : NormalizedStacks → StackBindings → Dict String String
kept v bindings = select (λ e. contains (candidate_ids v) e.0) bindings.candidate_accounts

module _ (digest : String → String → ℕ → String → String) where
  unfoldable pub delete_stack :
      NormalizedStacks → StackBindings → String → Json → Checked (NormalizedStacks × StackBindings)
  delete_stack v bindings name projects = do
    guard (not (name == v.default_stack)) default_deleted
    guard (has_key name v.stacks) unknown_stack
    contexts ← contexts_of projects
    guard (not (any (is_reference name) contexts)) referenced
    updated ← elim (normalize_model_stacks digest (without_stack name (serialize_model_stacks v))) [
      | ok u ↦ ok u
      | err e ↦ err (bad_stacks e)
    ]
    remaining ←
        elim (new_bindings
          (accounts_json (record { candidate_accounts = kept updated bindings }))) [
            | ok b ↦ ok b
            | err e ↦ err (bad_bindings e)
          ]
    ok (updated, remaining)
