-- ===== src/Account/Valid.antt =====
-- Which accounts `_parse_account` accepts, and that it reads back what `as_json` writes.
use orichum.Base.{
  ℕ, ◌≤◌, String, true, Bool, ◌≡◌, Option, none, some, arith, ◌==◌, string_eq, contains, ◌&&◌, refl,
  pos,
}
use orichum.Base.Result.{ok}
use orichum.Base.Text.{strip, strip-strip, after_last}
use orichum.Base.Dict.{Dict}
use orichum.Json.{Json, null, int, str, obj, entries, item, has_exactly, entries-from_entries}
use orichum.Account.{
  Account, AccountError, invalid, as_json, parse_account, parse_entries, is_account_id,
  is_routing_prefix, is_credential_ref, is_original_prefix, is_display_name, is_identifier,
  account_states, account_fields, text_of, display_name, identifier, priority_of, optional, opt_str,
  opt_int, json_entries,
}

module _ {A : Type 0} where
  abbrev OnSome : (A → Type 0) → Option A → Type 0
  OnSome P none = Unit
  OnSome P (some a) = P a

pub record IsValid (a : Account) : Type 0 where
  pub id_ok : is_account_id a.id ≡ true
  pub prefix_ok : is_routing_prefix a.routing_prefix ≡ true
  pub ref_ok :
      (is_credential_ref a.credential_ref && after_last b'/' a.credential_ref == a.credential_ref)
      ≡ true
  pub state_ok : contains account_states a.state ≡ true
  pub old_prefix_ok : OnSome (λ p. is_original_prefix p ≡ true) a.original_prefix
  pub old_priority_ok : OnSome (λ p. p ≤ 1000) a.original_priority
  pub name_ok : is_display_name a.name ≡ true
  pub name_stripped : strip a.name ≡ a.name
  pub provider_ok : is_identifier a.provider ≡ true
  pub pool_ok : is_identifier a.pool ≡ true
  pub priority_ok : a.priority ≤ 1000

text_of-eq-ok :
    (test : String → Bool) (e : AccountError) (v : Json) (s : String)
    → text_of test e v ≡ ok s
    → test s ≡ true
unfolding text_of
text_of-eq-ok test e (str t) s h = ground arith
text_of-eq-ok test e v s h = ground arith

priority_of-eq-ok : (v : Json) (n : ℕ) → priority_of v ≡ ok n → n ≤ 1000
unfolding priority_of
priority_of-eq-ok v n h = ground arith

display_name-eq-ok :
    (v : Json) (s : String) → display_name v ≡ ok s → (is_display_name s ≡ true) × (strip s ≡ s)
unfolding display_name
display_name-eq-ok (str t) s h = ground (arith, strip-strip t)
display_name-eq-ok v s h = ground arith

identifier-eq-ok :
    (v : Json) (label s : String) → identifier v label ≡ ok s → is_identifier s ≡ true
unfolding identifier
identifier-eq-ok v label s h = text_of-eq-ok is_identifier (invalid label) v s h

optional_text-eq-ok :
    (test : String → Bool) (e : AccountError) (v : Json) (o : Option String)
    → optional (text_of test e) v ≡ ok o
    → OnSome (λ p. test p ≡ true) o
unfolding optional
optional_text-eq-ok test e null o h = ground arith
optional_text-eq-ok test e v (some s) h = ground (arith, text_of-eq-ok test e v s)
optional_text-eq-ok test e v none h = tt

optional_priority-eq-ok :
    (v : Json) (o : Option ℕ) → optional priority_of v ≡ ok o → OnSome (λ p. p ≤ 1000) o
unfolding optional
optional_priority-eq-ok null o h = ground arith
optional_priority-eq-ok v (some n) h = ground (arith, priority_of-eq-ok v n)
optional_priority-eq-ok v none h = tt

parse_entries-IsValid : (d : Dict String Json) (a : Account) → parse_entries d ≡ ok a → IsValid a
unfolding parse_entries
parse_entries-IsValid d a h = ground (
  arith,
  text_of-eq-ok is_account_id (invalid "ID") (item "id" d) a.id,
  text_of-eq-ok is_routing_prefix (invalid "routing prefix") (item "routingPrefix" d)
      a.routing_prefix,
  text_of-eq-ok (λ s. is_credential_ref s && after_last b'/' s == s)
      (invalid "credential reference") (item "credentialRef" d) a.credential_ref,
  text_of-eq-ok (contains account_states) (invalid "state") (item "state" d) a.state,
  optional_text-eq-ok is_original_prefix (invalid "original prefix") (item "originalPrefix" d)
      a.original_prefix,
  optional_priority-eq-ok (item "originalPriority" d) a.original_priority,
  display_name-eq-ok (item "name" d) a.name,
  identifier-eq-ok (item "provider" d) "account provider" a.provider,
  identifier-eq-ok (item "pool" d) "account pool" a.pool,
  priority_of-eq-ok (item "priority" d) a.priority,
)

-- What `_parse_account` accepts is valid.
pub parse_account-IsValid : (j : Json) (a : Account) → parse_account j ≡ ok a → IsValid a
unfolding parse_account
parse_account-IsValid (obj fs) a h = ground (arith, parse_entries-IsValid (entries fs) a)
parse_account-IsValid j a h = ground arith

fields_exact : (a : Account) → has_exactly account_fields (json_entries a) ≡ true
unfolding has_exactly json_entries string_eq
fields_exact a = refl

optional_text-opt_str :
    (test : String → Bool) (e : AccountError) (o : Option String)
    → OnSome (λ p. test p ≡ true) o
    → optional (text_of test e) (opt_str o) ≡ ok o
unfolding optional text_of opt_str
optional_text-opt_str test e none h = refl
optional_text-opt_str test e (some s) h = ground arith

optional_priority-opt_int :
    (o : Option ℕ) → OnSome (λ p. p ≤ 1000) o → optional priority_of (opt_int o) ≡ ok o
unfolding optional priority_of opt_int
optional_priority-opt_int none h = refl
optional_priority-opt_int (some n) h = ground arith

-- The values that the validation finds in a valid account's entries.
record Reads (a : Account) : Type 0 where
  id : item "id" (json_entries a) ≡ str a.id
  name : item "name" (json_entries a) ≡ str a.name
  provider : item "provider" (json_entries a) ≡ str a.provider
  credential_ref : item "credentialRef" (json_entries a) ≡ str a.credential_ref
  pool : item "pool" (json_entries a) ≡ str a.pool
  routing_prefix : item "routingPrefix" (json_entries a) ≡ str a.routing_prefix
  priority : item "priority" (json_entries a) ≡ int (pos a.priority)
  state : item "state" (json_entries a) ≡ str a.state
  original_prefix : item "originalPrefix" (json_entries a) ≡ opt_str a.original_prefix
  original_priority : item "originalPriority" (json_entries a) ≡ opt_int a.original_priority

reads : (a : Account) → Reads a
unfolding item json_entries string_eq
reads a = record {
  id = refl;
  name = refl;
  provider = refl;
  credential_ref = refl;
  pool = refl;
  routing_prefix = refl;
  priority = refl;
  state = refl;
  original_prefix = refl;
  original_priority = refl;
}

parse_entries-json_entries :
    (a : Account) → IsValid a → Reads a → parse_entries (json_entries a) ≡ ok a
unfolding parse_entries text_of identifier display_name priority_of
parse_entries-json_entries a v r = ground (
  arith,
  optional_text-opt_str is_original_prefix (invalid "original prefix") a.original_prefix
      v.old_prefix_ok,
  optional_priority-opt_int a.original_priority v.old_priority_ok,
)

-- A valid account is read back from its JSON.
pub parse_account-as_json : (a : Account) → IsValid a → parse_account (as_json a) ≡ ok a
unfolding parse_account as_json
parse_account-as_json a v =
    rw (entries-from_entries (json_entries a), fields_exact a)
      (parse_entries-json_entries a v (reads a))

-- The fields of an account after validation.
pub record SameBut (a b : Account) : Type 0 where
  pub id : a.id ≡ b.id
  pub name : a.name ≡ strip b.name
  pub provider : a.provider ≡ b.provider
  pub credential_ref : a.credential_ref ≡ b.credential_ref
  pub pool : a.pool ≡ b.pool
  pub routing_prefix : a.routing_prefix ≡ b.routing_prefix
  pub priority : a.priority ≡ b.priority
  pub state : a.state ≡ b.state
  pub original_prefix : a.original_prefix ≡ b.original_prefix
  pub original_priority : a.original_priority ≡ b.original_priority

opt_str-read :
    (test : String → Bool) (e : AccountError) (o r : Option String)
    → optional (text_of test e) (opt_str o) ≡ ok r
    → r ≡ o
unfolding optional text_of opt_str
opt_str-read test e none r h = ground arith
opt_str-read test e (some s) r h = ground arith

opt_int-read : (o r : Option ℕ) → optional priority_of (opt_int o) ≡ ok r → r ≡ o
unfolding optional priority_of opt_int
opt_int-read none r h = ground arith
opt_int-read (some n) r h = ground arith

parse_entries-SameBut :
    (b a : Account) → Reads b → parse_entries (json_entries b) ≡ ok a → SameBut a b
unfolding parse_entries text_of identifier display_name priority_of
parse_entries-SameBut b a r h = ground (
  arith,
  opt_str-read is_original_prefix (invalid "original prefix") b.original_prefix a.original_prefix,
  opt_int-read b.original_priority a.original_priority,
)

-- Where validation accepts an account's JSON, the result has the account's ID, provider, credential
-- reference, pool, prefix, priority, state and original values, and its name without the white space round it.
pub parse_account-SameBut : (b a : Account) → parse_account (as_json b) ≡ ok a → SameBut a b
unfolding parse_account as_json
parse_account-SameBut b a h =
    parse_entries-SameBut b a (reads b)
      (rw (entries-from_entries (json_entries b), fields_exact b) at h)
