-- ===== src/Account/Registry.antt =====
-- integrations/common/account_registry.py: the accounts of one registry file. The JSON text is the
-- library's, so the file's content is the parsed document; `os.lstat` gives its `stamp`.
pub mod Laws
pub mod Accounts
use orichum.Base.{
  ℕ, zero, suc, ◌+◌, String, Bool, true, false, not, ◌&&◌, ◌||◌, Option, none, some, List, [], ◌∷◌,
  map, leb, ◌==◌, nat_eq, string_eq, option_eq, contains, if◌then◌else◌, select, pos,
}
use orichum.Base.Dict.{Dict}
use orichum.Base.Result.{Result, ok, err, ◌>>=◌, ◌>>◌, guard}
use orichum.Base.Text.{◌<>◌}
use orichum.Json.{Json, arr, int, str, obj, object, array, items, entries, has_exactly, item}
use orichum.Account.{
  Account, Checked, AccountError, invalid, bad_selector, no_identifiers, duplicate_ids,
  duplicate_names, duplicate_credentials, duplicate_prefixes, bad_registry, bad_version, not_array,
  too_large, changed, as_json, parse_account, opt_str, opt_int,
}

-- `len(values) == len(set(values))`
unfoldable pub distinct : List String → Bool
distinct [] = true
distinct (x ∷ xs) = not (contains xs x) && distinct xs

unfoldable pub parse_all : List Json → Checked (List Account)
parse_all [] = ok []
parse_all (v ∷ vs) = do a ← parse_account v; rest ← parse_all vs; ok (a ∷ rest)

-- The four uniqueness checks, in order.
unfoldable pub check_unique : List Account → Checked (Unit {0})
check_unique xs = do
  guard (distinct (map (λ a. a.id) xs)) duplicate_ids
  guard (distinct (map (λ a. a.name) xs)) duplicate_names
  guard (distinct (map (λ a. a.credential_ref) xs)) duplicate_credentials
  guard (distinct (map (λ a. a.routing_prefix) xs)) duplicate_prefixes

unfoldable pub validate_accounts : List Account → Checked (List Account)
validate_accounts accounts = do
  normalized ← parse_all (map as_json accounts)
  check_unique normalized
  ok normalized

-- The parsed document of `load_accounts`.
unfoldable pub load_document : Json → Checked (List Account)
load_document (obj fs) = do
  guard (has_exactly ("schemaVersion" ∷ "accounts" ∷ []) (entries fs)) bad_registry
  guard (elim (item "schemaVersion" (entries fs)) [ int (pos n) ↦ n == 2 | _ ↦ false ]) bad_version
  values ← elim (item "accounts" (entries fs)) [ arr xs ↦ ok (items xs) | _ ↦ err not_array ]
  parsed ← parse_all values
  validate_accounts parsed
load_document _ = err bad_registry

-- What `_write_registry` serialises.
unfoldable pub document : List Account → Json
document accounts =
    object (("schemaVersion", int (pos 2)) ∷ ("accounts", array (map as_json accounts)) ∷ [])

unfoldable pub matches_selector : String → Account → Bool
matches_selector selector a = a.id == selector || a.name == selector

unfoldable pub find_account : List Account → String → Checked Account
find_account accounts selector = elim (select (matches_selector selector) accounts) [
  | [] ↦ err bad_selector
  | a ∷ [] ↦ ok a
  | a ∷ b ∷ more ↦ err bad_selector
]

pub record Request : Type 0 where
  pub name : String
  pub provider : String
  pub credential_ref : String
  pub pool : String
  pub priority : ℕ
  pub state : String
  pub original_prefix : Option String
  pub original_priority : Option ℕ

-- The document that `new_account` hands to `_parse_account`.
unfoldable pub request_json : Request → String → String → Json
request_json r identifier prefix = as_json (record {
  id = identifier;
  name = r.name;
  provider = r.provider;
  credential_ref = r.credential_ref;
  pool = r.pool;
  routing_prefix = prefix;
  priority = r.priority;
  state = r.state;
  original_prefix = r.original_prefix;
  original_priority = r.original_priority;
})

-- The loop over `range(32)`; `tokens` are the values that `secrets.token_hex(8)` returns.
module _ (tokens : ℕ → String) (request : Request) (existing : List Account) where
  unfoldable pub attempt : ℕ → ℕ → Checked Account
  attempt zero i = err no_identifiers
  attempt (suc left) i =
      let rest = attempt left (i + 2) in
      let identifier = "oc-a-" <> tokens i in
      let prefix = "oc-r-" <> tokens (i + 1) in
      if not (contains (map (λ a. a.id) existing) identifier)
        && not (contains (map (λ a. a.routing_prefix) existing) prefix)
      then parse_account (request_json request identifier prefix)
      else rest

  unfoldable pub new_account : Checked Account
  new_account = attempt 32 0

-- The registry file: its `lstat` stamp and its document, or no file.
pub record File : Type 0 where
  pub stamp : Option ℕ
  pub content : Json

unfoldable pub load_accounts : File → Checked (List Account)
load_accounts file = elim file.stamp [ none ↦ ok [] | some s ↦ load_document file.content ]

-- `interfere` is what other processes do to the file while `transform` runs; `next_stamp` is the
-- stamp of the file that replaces it, and `size` the length of the JSON text.
module _ (size : Json → ℕ) (transform : List Account → List Account) (interfere : File → File)
    (next_stamp : ℕ) where
  unfoldable pub update_accounts : File → Checked (List Account) × File
  update_accounts file = elim (load_accounts file) [
    | err e ↦ (err e, file)
    | ok current ↦ elim (validate_accounts (transform current)) [
      | err e ↦ (err e, interfere file)
      | ok updated ↦
          if (interfere file).stamp == file.stamp
          then (if leb (size (document updated)) 2097152
              then (ok updated, record { stamp = some next_stamp; content = document updated })
              else (err too_large, interfere file))
          else (err changed, interfere file)
    ]
  ]
