-- ===== src/Account/Registry/Laws.antt =====
-- The registry's files and accounts: what is loaded, written, found and made.
use orichum.Base.{
  ℕ, true, ◌≡◌, ◌⊎◌, inl, inr, refl, List, [], ◌∷◌, map, arith, string_eq, option_eq, nat_eq, All,
}
use orichum.Base.Result.{ok, err, Result-cases}
use orichum.Json.{Json, item, has_exactly, items-from_items}
use orichum.Account.{Account, AccountError, Checked, as_json}
use orichum.Account.Valid.{IsValid, parse_account-IsValid, parse_account-as_json}
use orichum.Account.Registry.{
  distinct, parse_all, check_unique, validate_accounts, load_document, document, File,
  load_accounts, update_accounts,
}

-- What every accepted registry satisfies.
pub record IsRegistry (xs : List Account) : Type 0 where
  pub valid : All IsValid xs
  pub ids : distinct (map (λ a. a.id) xs) ≡ true
  pub names : distinct (map (λ a. a.name) xs) ≡ true
  pub refs : distinct (map (λ a. a.credential_ref) xs) ≡ true
  pub prefixes : distinct (map (λ a. a.routing_prefix) xs) ≡ true

parse_all-IsValid : (vs : List Json) (xs : List Account) → parse_all vs ≡ ok xs → All IsValid xs
unfolding parse_all
parse_all-IsValid [] xs h = ground arith
parse_all-IsValid (v ∷ vs) [] h = tt
parse_all-IsValid (v ∷ vs) (x ∷ xs) h =
    ground (arith, parse_account-IsValid v x, parse_all-IsValid vs xs)

parse_all-as_json : (xs : List Account) → All IsValid xs → parse_all (map as_json xs) ≡ ok xs
unfolding parse_all
parse_all-as_json [] h = refl
parse_all-as_json (x ∷ xs) h = rw (parse_account-as_json x h.0, parse_all-as_json xs h.1)

-- What validation accepts is a registry: valid accounts, each of the four keys given once.
pub validate_accounts-IsRegistry :
    (xs ys : List Account) → validate_accounts xs ≡ ok ys → IsRegistry ys
unfolding validate_accounts check_unique
validate_accounts-IsRegistry xs ys h = ground (arith, parse_all-IsValid (map as_json xs) ys)

-- Validation accepts each registry and returns it unchanged.
pub validate_accounts_self : (xs : List Account) → IsRegistry xs → validate_accounts xs ≡ ok xs
unfolding validate_accounts check_unique
validate_accounts_self xs r = ground (arith, parse_all-as_json xs r.valid)

-- The document that is written for a registry is loaded as that registry.
pub load_document-document :
    (xs : List Account) → IsRegistry xs → load_document (document xs) ≡ ok xs
unfolding load_document document has_exactly item string_eq nat_eq
load_document-document xs r =
    rw (items-from_items (map as_json xs), parse_all-as_json xs r.valid)
      (validate_accounts_self xs r)

module _ (size : Json → ℕ) (transform : List Account → List Account) (interfere : File → File)
    (next_stamp : ℕ) (file : File) where
  abbrev updated : Checked (List Account) × File
  updated = update_accounts size transform interfere next_stamp file

  -- A successful update returns a registry, which the file then holds, and the file had the stamp
  -- that it had before `transform` ran.
  pub update_accounts-ok :
      (xs : List Account)
      → updated.0 ≡ ok xs
      → IsRegistry xs × (load_accounts updated.1 ≡ ok xs) × ((interfere file).stamp ≡ file.stamp)
  unfolding update_accounts load_accounts
  update_accounts-ok xs h = elim (Result-cases (load_accounts file)) [
    | inl (current, e) ↦
        ground
          (arith, e, validate_accounts-IsRegistry (transform current) xs, load_document-document xs)
    | inr (x, e) ↦ ground (arith, e)
  ]

  -- A failed update writes nothing: the file is as the others left it.
  pub update_accounts-err :
      (e : AccountError) → updated.0 ≡ err e → (updated.1 ≡ file) ⊎ (updated.1 ≡ interfere file)
  unfolding update_accounts
  update_accounts-err e h = ground arith
