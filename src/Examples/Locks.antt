-- ===== src/Examples/Locks.antt =====
-- A saved binding, with one registered account. The library's text is one word.
use orichum.Base.{◌≡◌, ◌⊎◌, true, refl, some, List, [], ◌∷◌, string_eq, nat_eq, option_eq}
use orichum.Base.Result.{Result, ok}
use orichum.Base.Sort.{sorted, insert_sorted}
use orichum.Base.Text.{matches_hex16, strip_prefix, is_hex, is_digit, every, size}
use orichum.Json.{has_exactly, item}
use orichum.Base.Dict.{lookup}
use orichum.Account.{Account, AccountError, is_account_id}
use orichum.ModelStacks.{is_candidate_id}
use orichum.StackBindings.{
  StackBindings, Library, document, accounts_json, decode, decode_document, new_bindings,
  check_entries, is_version_1, load_stack_bindings, stack_binding_digest, are_registered,
  check_registered, is_empty, write, save,
}
use orichum.StackBindings.Saved.{IsBindings, save-ok}
use orichum.Examples.{work}

abbrev locks : StackBindings
locks = record { candidate_accounts = ("oc-c-0000000000000000", work.id) ∷ [] }

abbrev library : Library
library = record {
  loads = λ text. some (document locks);
  dumps = λ v. "saved";
  hash = λ text. text;
  length_of = λ text. 100;
}

abbrev registry : Result AccountError (List Account)
registry = ok (work ∷ [])

locks-IsBindings : IsBindings locks
unfolding is_candidate_id is_account_id matches_hex16 strip_prefix is_hex is_digit every size sorted
    insert_sorted nat_eq
locks-IsBindings = record { forms = ((refl, refl), tt); in_order = refl }

saved : save library true registry locks (some "before") (some "before") ≡ (ok locks, some "saved")
unfolding save write check_registered are_registered is_empty stack_binding_digest
    load_stack_bindings decode decode_document new_bindings check_entries document accounts_json
    is_version_1 has_exactly item lookup is_candidate_id is_account_id matches_hex16 strip_prefix
    is_hex is_digit every size sorted insert_sorted string_eq nat_eq option_eq
saved = refl

save-ok_example :
    (locks ≡ locks)
    × (true ≡ true)
    × (stack_binding_digest library (some "before") ≡ some "before")
    × ((locks.candidate_accounts ≡ [])
        ⊎ ((accounts : List Account) × (registry ≡ ok accounts)
            × (are_registered accounts locks ≡ true)))
    × (load_stack_bindings library (some "saved") ≡ ok locks)
save-ok_example =
    save-ok library locks refl locks-IsBindings true registry locks (some "before") (some "before")
      (some "saved") saved
