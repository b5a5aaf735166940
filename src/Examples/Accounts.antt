-- ===== src/Examples/Accounts.antt =====
-- The registry's theorems at two accounts.
use orichum.Base.{
  String, ◌≡◌, refl, none, some, List, [], ◌∷◌, ℕ, string_eq, nat_eq, option_eq, arith,
}
use orichum.Base.Result.{Result, ok, err}
use orichum.Base.Text.{
  matches, matches_hex16, size, every, ◌<>◌, strip, strip_prefix, strip_suffix, after_last,
  is_lower, is_upper, is_digit, is_alnum, is_hex, is_space,
}
use orichum.Account.{
  Account, AccountError, changed, is_account_id, is_routing_prefix, is_credential_ref,
  is_display_name, is_identifier,
}
use orichum.Account.Valid.{IsValid, parse_account-as_json}
use orichum.Account.Registry.{
  Request, new_account, attempt, request_json, distinct, validate_accounts, document, File,
  load_accounts, update_accounts,
}
use orichum.Account.Registry.Laws.{
  IsRegistry, validate_accounts_self, load_document-document, update_accounts-ok,
}
use orichum.Account.Registry.Accounts.{IsFresh, new_account-IsFresh}
use orichum.Examples.{work, home}

pub work-IsValid : IsValid work
unfolding is_account_id is_routing_prefix is_credential_ref is_display_name is_identifier matches
    matches_hex16 size every strip strip_prefix strip_suffix after_last is_lower is_upper is_digit
    is_alnum is_hex is_space string_eq nat_eq
work-IsValid = record {
  id_ok = refl;
  prefix_ok = refl;
  ref_ok = refl;
  state_ok = refl;
  old_prefix_ok = tt;
  old_priority_ok = tt;
  name_ok = refl;
  name_stripped = refl;
  provider_ok = refl;
  pool_ok = refl;
  priority_ok = omega arith;
}

-- The steps by which a registry of the two accounts, and one account's JSON, compute.
abbrev two : List Account
two = work ∷ home ∷ []

home-IsValid : IsValid home
unfolding is_account_id is_routing_prefix is_credential_ref is_display_name is_identifier matches
    matches_hex16 size every strip strip_prefix strip_suffix after_last is_lower is_upper is_digit
    is_alnum is_hex is_space string_eq nat_eq
home-IsValid = record {
  id_ok = refl;
  prefix_ok = refl;
  ref_ok = refl;
  state_ok = refl;
  old_prefix_ok = tt;
  old_priority_ok = tt;
  name_ok = refl;
  name_stripped = refl;
  provider_ok = refl;
  pool_ok = refl;
  priority_ok = omega arith;
}

pub two-IsRegistry : IsRegistry two
unfolding distinct string_eq
two-IsRegistry = record {
  valid = (work-IsValid, (home-IsValid, tt));
  ids = refl;
  names = refl;
  refs = refl;
  prefixes = refl;
}

two_valid : validate_accounts two ≡ ok two
two_valid = validate_accounts_self two two-IsRegistry

-- A file with the first account, and a transformation that adds the second.
abbrev file : File
file = record { stamp = some 1; content = document (work ∷ []) }

abbrev other : File
other = record { stamp = some 9; content = document (work ∷ []) }

one-IsRegistry : IsRegistry (work ∷ [])
unfolding distinct string_eq
one-IsRegistry = record {
  valid = (work-IsValid, tt);
  ids = refl;
  names = refl;
  refs = refl;
  prefixes = refl;
}

abbrev result_of : (File → File) → Result AccountError (List Account) × File
result_of interfere = update_accounts (λ j. 10) (λ xs. two) interfere 2 file

update_succeeds : (result_of (λ f. f)).0 ≡ ok two
unfolding update_accounts load_accounts option_eq nat_eq
update_succeeds = ground (arith, load_document-document (work ∷ []) one-IsRegistry, two_valid)

update_fails : (result_of (λ f. other)).0 ≡ err changed
unfolding update_accounts load_accounts option_eq nat_eq
update_fails = ground (arith, load_document-document (work ∷ []) one-IsRegistry, two_valid)

update_accounts-ok_example :
    IsRegistry two × (load_accounts (result_of (λ f. f)).1 ≡ ok two) × (file.stamp ≡ file.stamp)
update_accounts-ok_example =
    update_accounts-ok (λ j. 10) (λ xs. two) (λ f. f) 2 file two update_succeeds

abbrev token : ℕ → String
token n = "fedcba9876543210"

abbrev wanted : Request
wanted = record {
  name = "home";
  provider = "anthropic";
  credential_ref = "home.json";
  pool = "team";
  priority = 50;
  state = "active";
  original_prefix = none;
  original_priority = none;
}

home_made : new_account token wanted (work ∷ []) ≡ ok home
unfolding new_account attempt request_json string_eq ◌<>◌
home_made = ground (arith, parse_account-as_json home home-IsValid)

new_account-IsFresh_example : IsFresh token wanted (work ∷ []) home
new_account-IsFresh_example = new_account-IsFresh token wanted (work ∷ []) home home_made
