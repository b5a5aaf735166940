-- ===== src/StackBindings/Saved.antt =====
-- What a saved binding is, and what a failed save leaves.
use orichum.Base.{
  String, Bool, true, ◌≡◌, ◌⊎◌, inl, inr, Option, none, some, List, [], ◌∷◌, map, pos, string_eq,
  nat_eq, option_eq, refl, ap, ◌∙◌, arith, All, ◌==◌, ==_iff, Bool-cases, First-cases,
  if◌then◌else◌, ◌&&◌,
}
use orichum.Base.Dict.{Dict, lookup}
use orichum.Base.Result.{Result, ok, err, Result-cases}
use orichum.Base.Sort.{sorted}
use orichum.Json.{int, str, item, has_exactly, entries-from_entries}
use orichum.Account.{Account, AccountError, is_account_id}
use orichum.ModelStacks.{is_candidate_id, by_key}
use orichum.StackBindings.{
  BindingError, StackBindings, check_entries, new_bindings, is_version_1, decode_document,
  accounts_json, document, Library, decode, load_stack_bindings, stack_binding_digest,
  are_registered, check_registered, is_empty, write, save,
}

pub record IsBindings (b : StackBindings) : Type 0 where
  pub forms :
      All (λ e. (is_candidate_id e.0 ≡ true) × (is_account_id e.1 ≡ true)) b.candidate_accounts
  pub in_order : sorted by_key b.candidate_accounts ≡ b.candidate_accounts

check_entries-json :
    (d : Dict String String)
    → All (λ e. (is_candidate_id e.0 ≡ true) × (is_account_id e.1 ≡ true)) d
    → check_entries (map (λ e. (e.0, str e.1)) d) ≡ ok d
unfolding check_entries
check_entries-json [] h = refl
check_entries-json ((c, a) ∷ d) h = rw (h.0.0, h.0.1) (rw (check_entries-json d h.1) refl)

document-items :
    (b : StackBindings)
    → (has_exactly
          ("schemaVersion" ∷ "candidateAccounts" ∷ [])
          (("candidateAccounts", accounts_json b) ∷ ("schemaVersion", int (pos 1)) ∷ [])
        ≡ true)
      × (is_version_1 (
            item "schemaVersion"
              (("candidateAccounts", accounts_json b) ∷ ("schemaVersion", int (pos 1)) ∷ []))
          ≡ true)
      × (item "candidateAccounts"
            (("candidateAccounts", accounts_json b) ∷ ("schemaVersion", int (pos 1)) ∷ [])
          ≡ accounts_json b)
unfolding has_exactly item lookup is_version_1 string_eq nat_eq
document-items b = (refl, refl, refl)

decode_document-document : (b : StackBindings) → IsBindings b → decode_document (document b) ≡ ok b
unfolding decode_document document new_bindings accounts_json
decode_document-document b h =
    let (x, v, a) = document-items b in
    rw (x, v, a)
      (rw
        (entries-from_entries (map (λ (e : String × String). (e.0, str e.1)) b.candidate_accounts))
        (rw (check_entries-json b.candidate_accounts h.forms) (rw h.in_order refl)))

check_registered-ok :
    (registry : Result AccountError (List Account)) (b : StackBindings) (u : Unit {0})
    → check_registered registry b ≡ ok u
    → (b.candidate_accounts ≡ [])
      ⊎ ((accounts : List Account) × (registry ≡ ok accounts) × (are_registered accounts b ≡ true))
unfolding check_registered
check_registered-ok registry b u h = elim (First-cases b.candidate_accounts) [
  | inl e ↦ inl e
  | inr (x, r, e) ↦ elim (Result-cases registry) [
    | inl (accounts, q) ↦ inr (accounts, q, ground (arith, h, e, q))
    | inr (y, q) ↦ ground (arith, h, e, q)
  ]
]

is_empty-ok : (b : StackBindings) → is_empty b ≡ true → b.candidate_accounts ≡ []
unfolding is_empty
is_empty-ok b h = elim (First-cases b.candidate_accounts) [
  | inl e ↦ e
  | inr (x, r, e) ↦ ground (arith, h, e)
]

module _ (lib : Library) (updated : StackBindings)
    (reads : lib.loads (lib.dumps (document updated)) ≡ some (document updated))
    (valid : IsBindings updated) where
  -- The bindings that were written are read again.
  load-dumps : load_stack_bindings lib (some (lib.dumps (document updated))) ≡ ok updated
  unfolding load_stack_bindings decode
  load-dumps = rw reads (decode_document-document updated valid)

  no_bindings : updated.candidate_accounts ≡ [] → load_stack_bindings lib none ≡ ok updated
  unfolding load_stack_bindings
  no_bindings e = ground (arith, e)

  finished :
      (saved : StackBindings) (file after : Option String)
      → (if (file == none) && is_empty updated then (ok updated, file) else write lib updated file)
        ≡ (ok saved, after)
      → (saved ≡ updated) × (load_stack_bindings lib after ≡ ok updated)
  unfolding write
  finished saved file after h =
      let again = load-dumps in
      elim (Bool-cases ((file == none) && is_empty updated)) [
        | inl t ↦
            let no_file : file ≡ none = (==_iff file none).0 (ground (arith, t)) in
            let none_given = is_empty-ok updated (ground (arith, t)) in
            let same : saved ≡ updated = ground (arith, h, t) in
            let kept : after ≡ none = ground (arith, h, t, no_file) in
            (same, ap (load_stack_bindings lib) kept ∙ no_bindings none_given)
        | inr f ↦ (ground (arith, h, f, again), ground (arith, h, f, again))
      ]

  -- Saving bindings of the right form, in order, returns them or raises. Where it returns them, the
  -- transaction was open, the file had the digest that the caller expected, every account that the bindings
  -- name is registered, and reading the file gives the bindings. Of the JSON library it is assumed
  -- that it reads the document that it writes of these bindings.
  pub save-ok :
      (active : Bool) (registry : Result AccountError (List Account)) (saved : StackBindings)
      (expected file after : Option String)
      → save lib active registry updated expected file ≡ (ok saved, after)
      → (saved ≡ updated)
        × (active ≡ true)
        × (stack_binding_digest lib file ≡ expected)
        × ((updated.candidate_accounts ≡ [])
            ⊎ ((accounts : List Account) × (registry ≡ ok accounts)
                × (are_registered accounts updated ≡ true)))
        × (load_stack_bindings lib after ≡ ok updated)
  unfolding save
  save-ok active registry saved expected file after h = elim (Bool-cases active) [
    | inr f ↦ ground (arith, h, f)
    | inl t ↦ elim (Bool-cases (stack_binding_digest lib file == expected)) [
      | inr f ↦ ground (arith, h, t, f)
      | inl d ↦ elim (Result-cases (check_registered registry updated)) [
        | inr (x, e) ↦ ground (arith, h, t, d, e)
        | inl (u, e) ↦
            let (same, read) = finished saved file after (ground (arith, h, t, d, e)) in
            (
              same,
              t,
              (==_iff (stack_binding_digest lib file) expected).0 d,
              check_registered-ok registry updated u e,
              read,
            )
      ]
    ]
  ]

  -- A save that raises leaves the file as it was, on the same assumption.
  pub save-err :
      (active : Bool) (registry : Result AccountError (List Account))
      (expected file after : Option String) (x : BindingError)
      → save lib active registry updated expected file ≡ (err x, after)
      → after ≡ file
  unfolding save write
  save-err active registry expected file after x h =
      let again = load-dumps in ground (arith, h, again)
