-- ===== src/StackBindings.antt =====
-- integrations/common/stack_bindings.py: the accounts that a user's machine locks candidates to. The
-- file is its text, or none; `loads` and `dumps` are the JSON library's, `hash` the hexadecimal SHA-256
-- and `length_of` the number of bytes. Permissions, links and the lock are not modelled.
pub mod Saved
use orichum.Base.{
  ℕ, String, Bool, true, false, not, ◌&&◌, Option, none, some, List, [], ◌∷◌, map, ℤ, pos, leb,
  ◌==◌, nat_eq, string_eq, option_eq, contains, if◌then◌else◌, all,
}
use orichum.Base.Dict.{Dict, values}
use orichum.Base.Result.{Result, ok, err, ◌>>=◌, ◌>>◌, guard}
use orichum.Base.Sort.{sorted}
use orichum.Base.Text.{str_leb}
use orichum.Json.{Json, int, str, obj, object, entries, has_exactly, item}
use orichum.Account.{Account, AccountError, is_account_id}
use orichum.ModelStacks.{is_candidate_id, by_key}

pub data BindingError : Type 0 where
  not_object bad_candidate bad_account bad_json bad_fields bad_version : BindingError
  closed stale no_registry unregistered too_large : BindingError

abbrev pub Checked : Type 0 → Type 0
Checked A = Result BindingError A

pub record StackBindings : Type 0 where
  pub candidate_accounts : Dict String String

-- The loop of `__post_init__`.
unfoldable pub check_entries : Dict String Json → Checked (Dict String String)
check_entries [] = ok []
check_entries ((candidate, value) ∷ d) = do
  guard (is_candidate_id candidate) bad_candidate
  account ← elim value [ str s ↦ guard (is_account_id s) bad_account >> ok s | _ ↦ err bad_account ]
  rest ← check_entries d
  ok ((candidate, account) ∷ rest)

unfoldable pub new_bindings : Json → Checked StackBindings
new_bindings (obj fs) = do
  normalized ← check_entries (entries fs)
  ok (record { candidate_accounts = sorted by_key normalized })
new_bindings _ = err not_object

unfoldable pub is_version_1 : Json → Bool
is_version_1 (int (pos n)) = n == 1
is_version_1 _ = false

-- `_decode`, from the parsed document on.
unfoldable pub decode_document : Json → Checked StackBindings
decode_document (obj fs) = do
  guard (has_exactly ("schemaVersion" ∷ "candidateAccounts" ∷ []) (entries fs)) bad_fields
  guard (is_version_1 (item "schemaVersion" (entries fs))) bad_version
  new_bindings (item "candidateAccounts" (entries fs))
decode_document _ = err bad_fields

unfoldable pub accounts_json : StackBindings → Json
accounts_json b = object (map (λ e. (e.0, str e.1)) b.candidate_accounts)

-- What `_write` serialises, with the keys as `sort_keys` has them.
unfoldable pub document : StackBindings → Json
document b = object (("candidateAccounts", accounts_json b) ∷ ("schemaVersion", int (pos 1)) ∷ [])

-- What the standard library does with a text.
pub record Library : Type 0 where
  pub loads : String → Option Json
  pub dumps : Json → String
  pub hash : String → String
  pub length_of : String → ℕ

-- `set(updated.candidate_accounts.values()) - registered` is empty.
unfoldable pub are_registered : List Account → StackBindings → Bool
are_registered accounts b = all (contains (map (λ a. a.id) accounts)) (values b.candidate_accounts)

unfoldable pub check_registered :
    Result AccountError (List Account) → StackBindings → Checked (Unit {0})
check_registered registry b = elim b.candidate_accounts [
  | [] ↦ ok tt
  | e ∷ d ↦ elim registry [
    | err x ↦ err no_registry
    | ok accounts ↦ guard (are_registered accounts b) unregistered
  ]
]

unfoldable pub is_empty : StackBindings → Bool
is_empty b = elim b.candidate_accounts [ [] ↦ true | e ∷ d ↦ false ]

module _ (lib : Library) where
  unfoldable pub decode : String → Checked StackBindings
  decode text = do
    raw ← elim (lib.loads text) [ none ↦ err bad_json | some v ↦ ok v ]
    decode_document raw

  unfoldable pub load_stack_bindings : Option String → Checked StackBindings
  load_stack_bindings none = ok (record { candidate_accounts = [] })
  load_stack_bindings (some text) = decode text

  unfoldable pub stack_binding_digest : Option String → Option String
  stack_binding_digest none = none
  stack_binding_digest (some text) = some (lib.hash text)

  unfoldable pub write : StackBindings → Option String → Checked StackBindings × Option String
  write updated file =
      let text = lib.dumps (document updated) in
      if leb (lib.length_of text) 1048576
      then (load_stack_bindings (some text), some text)
      else (err too_large, file)

  -- A transaction's `save`; `active` is its flag, `registry` what `load_accounts` returns.
  unfoldable pub save :
      Bool
      → Result AccountError (List Account)
      → StackBindings
      → Option String
      → Option String
      → Checked StackBindings × Option String
  save active registry updated expected file =
      if not active
      then (err closed, file)
      else if not (stack_binding_digest file == expected)
      then (err stale, file)
      else elim (check_registered registry updated) [
        | err e ↦ (err e, file)
        | ok done ↦
            if (file == none) && is_empty updated then (ok updated, file) else write updated file
      ]
