-- ===== src/Account.antt =====
-- integrations/common/account_registry.py: the metadata of one account, and its validation.
pub mod Valid
pub mod Registry
use orichum.Base.{
  ℕ, zero, String, Bool, true, false, not, ◌&&◌, ◌||◌, Option, none, some, List, [], ◌∷◌, ℤ, pos,
  negsuc, leb, ◌==◌, nat_eq, string_eq, contains, if◌then◌else◌,
}
use orichum.Base.Dict.{Dict}
use orichum.Base.Result.{Result, ok, err, ◌>>=◌, ◌>>◌, guard}
use orichum.Base.Text.{
  is_lower, is_digit, is_alnum, matches, matches_hex16, strip, strip_suffix, after_last,
}
use orichum.Json.{Json, null, str, int, obj, object, entries, has_exactly, item}

-- One constructor for each message; a label says which value is meant.
pub data AccountError : Type 0 where
  invalid : String → AccountError
  bad_priority bad_fields duplicate_ids duplicate_names : AccountError
  duplicate_credentials duplicate_prefixes bad_selector no_identifiers : AccountError
  bad_registry bad_version not_array : AccountError
  too_large : AccountError
  changed : AccountError

abbrev pub Checked : Type 0 → Type 0
Checked A = Result AccountError A

pub record Account : Type 0 where
  pub id : String
  pub name : String
  pub provider : String
  pub credential_ref : String
  pub pool : String
  pub routing_prefix : String
  pub priority : ℕ
  pub state : String
  pub original_prefix : Option String
  pub original_priority : Option ℕ

unfoldable pub opt_str : Option String → Json
opt_str none = null
opt_str (some s) = str s

unfoldable pub opt_int : Option ℕ → Json
opt_int none = null
opt_int (some n) = int (pos n)

-- The entries of `as_json`.
unfoldable pub json_entries : Account → Dict String Json
unfolding opt_str opt_int
json_entries a =
    ("id", str a.id)
    ∷ ("name", str a.name)
    ∷ ("provider", str a.provider)
    ∷ ("credentialRef", str a.credential_ref)
    ∷ ("pool", str a.pool)
    ∷ ("routingPrefix", str a.routing_prefix)
    ∷ ("priority", int (pos a.priority))
    ∷ ("state", str a.state)
    ∷ ("originalPrefix", opt_str a.original_prefix)
    ∷ ("originalPriority", opt_int a.original_priority)
    ∷ []

unfoldable pub as_json : Account → Json
unfolding json_entries
as_json a = object (json_entries a)

-- `[a-z0-9][a-z0-9_-]{0,63}`
unfoldable pub is_identifier : String → Bool
unfolding is_lower is_digit matches
is_identifier =
    matches (λ c. is_lower c || is_digit c)
      (λ c. is_lower c || is_digit c || c == b'_' || c == b'-') 63

unfoldable pub is_account_id : String → Bool
unfolding matches_hex16
is_account_id = matches_hex16 "oc-a-"

unfoldable pub is_routing_prefix : String → Bool
unfolding matches_hex16
is_routing_prefix = matches_hex16 "oc-r-"

-- `[A-Za-z0-9][A-Za-z0-9._-]{0,127}`
unfoldable pub is_original_prefix : String → Bool
unfolding is_alnum matches
is_original_prefix = matches is_alnum (λ c. is_alnum c || c == b'.' || c == b'_' || c == b'-') 127

name_code : ℕ → Bool
unfolding is_alnum
name_code c = is_alnum c || c == b'.' || c == b'_' || c == b'@' || c == b'+' || c == b'-'

-- `[A-Za-z0-9][A-Za-z0-9._@+-]{0,127}\.json`
unfoldable pub is_credential_ref : String → Bool
unfolding is_alnum matches name_code strip_suffix
is_credential_ref s = elim (strip_suffix ".json" s) [
  | none ↦ false
  | some body ↦ matches is_alnum name_code 127 body
]

-- `[A-Za-z0-9][A-Za-z0-9 ._@+-]{0,127}`
unfoldable pub is_display_name : String → Bool
unfolding is_alnum matches name_code
is_display_name = matches is_alnum (λ c. name_code c || c == b' ') 127

abbrev pub account_states : List String
account_states = "pending-add" ∷ "active" ∷ "disabled" ∷ "pending-remove" ∷ []

-- A value that has to be a `str` of a given form.
unfoldable pub text_of : (String → Bool) → AccountError → Json → Checked String
text_of test e (str s) = do guard (test s) e; ok s
text_of test e _ = err e

unfoldable pub identifier : Json → String → Checked String
identifier value label = text_of is_identifier (invalid label) value

unfoldable pub display_name : Json → Checked String
display_name (str s) = do guard (is_display_name (strip s)) (invalid "name"); ok (strip s)
display_name _ = err (invalid "name")

unfoldable pub priority_of : Json → Checked ℕ
priority_of (int (pos n)) = do guard (leb n 1000) bad_priority; ok n
priority_of _ = err bad_priority

-- The two optional fields: `None`, or a checked value.
unfoldable pub optional : {A : Type 0} → (Json → Checked A) → Json → Checked (Option A)
optional f null = ok none
optional f v = do a ← f v; ok (some a)

abbrev pub account_fields : List String
account_fields =
    "id" ∷ "name" ∷ "provider" ∷ "credentialRef" ∷ "pool" ∷ "routingPrefix" ∷ "priority" ∷ "state"
    ∷ "originalPrefix" ∷ "originalPriority" ∷ []

-- The checks on the entries, in the order in which they raise.
unfoldable pub parse_entries : Dict String Json → Checked Account
parse_entries d = do
  id ← text_of is_account_id (invalid "ID") (item "id" d)
  prefix ← text_of is_routing_prefix (invalid "routing prefix") (item "routingPrefix" d)
  ref ←
      text_of (λ s. is_credential_ref s && after_last b'/' s == s) (invalid "credential reference")
        (item "credentialRef" d)
  state ← text_of (contains account_states) (invalid "state") (item "state" d)
  old_prefix ←
      optional (text_of is_original_prefix (invalid "original prefix")) (item "originalPrefix" d)
  old_priority ← optional priority_of (item "originalPriority" d)
  name ← display_name (item "name" d)
  provider ← identifier (item "provider" d) "account provider"
  pool ← identifier (item "pool" d) "account pool"
  priority ← priority_of (item "priority" d)
  ok (record {
    id = id;
    name = name;
    provider = provider;
    credential_ref = ref;
    pool = pool;
    routing_prefix = prefix;
    priority = priority;
    state = state;
    original_prefix = old_prefix;
    original_priority = old_priority;
  })

unfoldable pub parse_account : Json → Checked Account
parse_account (obj fs) = do
  guard (has_exactly account_fields (entries fs)) bad_fields
  parse_entries (entries fs)
parse_account _ = err bad_fields
