-- ===== src/Sessions.antt =====
-- integrations/common/orichum_sessions.py: the routes that a logical session is bound to, and the
-- session's own document.
pub mod Bindings
pub mod Document
pub mod RoundTrip
pub mod Store
pub mod Changes
pub mod Created
pub mod Removed
pub mod Clear
pub mod Ancestors
pub mod Cleared
pub mod Plan
pub mod Planned
pub mod Resolved
use orichum.Base.{
  ℕ, zero, suc, String, Bool, true, false, not, ◌&&◌, ◌||◌, Option, none, some, List, [], ◌∷◌, map,
  ℤ, pos, leb, ◌==◌, nat_eq, string_eq, contains, if◌then◌else◌, all, length,
}
use Prim.Native.Char.{code}
use orichum.Base.Dict.{Dict, lookup, insert}
use orichum.Base.Result.{Result, ok, err, ◌>>=◌, ◌>>◌, guard}
use orichum.Base.Text.{strip_prefix, is_hex, matches_hex16}
use orichum.Json.{Json, null, int, str, arr, obj, object, array, items, entries, has_exactly, item}
use orichum.Account.{is_identifier, is_account_id}
use orichum.Account.Registry.{distinct}
use orichum.ModelRouting.{is_model_id, is_stack_name, roles, legacy_roles}
use orichum.RouteSelection.{Route, RouteError}
use orichum.RouteProxy.Policy.{Binding}

-- One constructor for each message; `missing_role` is a `KeyError`.
pub data SessionError : Type 0 where
  bad_identifier bad_route_fields bad_account_id bad_profile bad_upstream bad_priority :
      SessionError
  bad_model bad_binding_fields bad_fallbacks two_fallbacks foreign_fallback : SessionError
  repeated_account repeated_upstream : SessionError
  bad_fields bad_schema bad_leanctx bad_id bad_parent bad_uuid bad_root bad_stack : SessionError
  bad_agents bad_time : SessionError
  bad_selector unexpected_entry unavailable wrong_path too_large not_found ambiguous changed :
      SessionError
  other_project no_id collided active_session has_child cyclic : SessionError
  incomplete_stack : SessionError
  no_route missing_role : String → SessionError

abbrev pub Checked : Type 0 → Type 0
Checked A = Result SessionError A

unfoldable pub is_session_id : String → Bool
is_session_id = matches_hex16 "oc-s-"

unfoldable pub is_profile : String → Bool
is_profile = matches_hex16 "ocp-"

-- `[a-f0-9]{n}/` and a model ID.
unfoldable pub hex_then_model : ℕ → String → Bool
hex_then_model n String.[] = false
hex_then_model zero (String.◌∷◌ c s) = code c == b'/' && is_model_id s
hex_then_model (suc n) (String.◌∷◌ c s) = is_hex (code c) && hex_then_model n s

-- `"://" in s`
unfoldable pub has_scheme : String → Bool
unfolding strip_prefix
has_scheme String.[] = false
has_scheme (String.◌∷◌ c s) =
    elim (strip_prefix "://" (String.◌∷◌ c s)) [ none ↦ false | some rest ↦ true ] || has_scheme s

-- `oc-r-[a-f0-9]{16}/[A-Za-z0-9][A-Za-z0-9._:/@+-]{0,254}`, without a scheme.
unfoldable pub is_upstream : String → Bool
is_upstream s =
    elim (strip_prefix "oc-r-" s) [ none ↦ false | some rest ↦ hex_then_model 16 rest ]
    && not (has_scheme s)

-- A value that has to be a `str` of a given form.
unfoldable pub text_of : (String → Bool) → SessionError → Json → Checked String
text_of test e (str s) = do guard (test s) e; ok s
text_of test e _ = err e

unfoldable pub priority_of : Json → Checked ℕ
priority_of (int (pos n)) = do guard (leb n 1000) bad_priority; ok n
priority_of _ = err bad_priority

unfoldable pub route_entries : Route → Dict String Json
route_entries r =
    ("accountId", str r.account_id)
    ∷ ("provider", str r.provider)
    ∷ ("family", str r.family)
    ∷ ("logicalModel", str r.logical_model)
    ∷ ("upstreamModel", str r.upstream_model)
    ∷ ("profile", str r.claudex_profile)
    ∷ ("priority", int (pos r.priority))
    ∷ ("pool", str r.pool)
    ∷ []

unfoldable pub route_json : Route → Json
route_json r = object (route_entries r)

abbrev pub route_fields : List String
route_fields =
    "accountId" ∷ "provider" ∷ "family" ∷ "logicalModel" ∷ "upstreamModel" ∷ "profile" ∷ "priority"
    ∷ "pool" ∷ []

unfoldable pub parse_route_entries : Dict String Json → Checked Route
parse_route_entries d = do
  account_id ← text_of is_account_id bad_account_id (item "accountId" d)
  profile ← text_of is_profile bad_profile (item "profile" d)
  upstream ← text_of is_upstream bad_upstream (item "upstreamModel" d)
  priority ← priority_of (item "priority" d)
  logical_model ← text_of is_model_id bad_model (item "logicalModel" d)
  provider ← text_of is_identifier bad_identifier (item "provider" d)
  family ← text_of is_identifier bad_identifier (item "family" d)
  pool ← text_of is_identifier bad_identifier (item "pool" d)
  ok (record {
    account_id = account_id;
    provider = provider;
    family = family;
    logical_model = logical_model;
    upstream_model = upstream;
    claudex_profile = profile;
    priority = priority;
    pool = pool;
  })

unfoldable pub parse_route : Json → Checked Route
parse_route (obj fs) = do
  guard (has_exactly route_fields (entries fs)) bad_route_fields
  parse_route_entries (entries fs)
parse_route _ = err bad_route_fields

unfoldable pub parse_routes : List Json → Checked (List Route)
parse_routes [] = ok []
parse_routes (v ∷ vs) = do r ← parse_route v; rest ← parse_routes vs; ok (r ∷ rest)

unfoldable pub binding_json : Binding → Json
binding_json b =
    object
      (("primary", route_json b.primary) ∷ ("fallbacks", array (map route_json b.fallbacks)) ∷ [])

unfoldable pub is_foreign : Route → Route → Bool
is_foreign primary r =
    not (r.family == primary.family) || not (r.logical_model == primary.logical_model)

-- The checks on the parsed routes, in the order in which they raise.
unfoldable pub check_binding : Route → List Route → Checked (Unit {0})
check_binding primary fallbacks = do
  guard (leb (length fallbacks) 1) two_fallbacks
  guard (all (λ r. not (is_foreign primary r)) fallbacks) foreign_fallback
  guard (distinct (map (λ r. r.account_id) (primary ∷ fallbacks))) repeated_account
  guard (distinct (map (λ r. r.upstream_model) (primary ∷ fallbacks))) repeated_upstream

unfoldable pub parse_binding_entries : Dict String Json → Checked Binding
parse_binding_entries d = do
  raw_fallbacks ← elim (item "fallbacks" d) [ arr xs ↦ ok (items xs) | _ ↦ err bad_fallbacks ]
  primary ← parse_route (item "primary" d)
  fallbacks ← parse_routes raw_fallbacks
  check_binding primary fallbacks
  ok (record { primary = primary; fallbacks = fallbacks })

unfoldable pub parse_binding : Json → Checked Binding
parse_binding (obj fs) = do
  guard (has_exactly ("primary" ∷ "fallbacks" ∷ []) (entries fs)) bad_binding_fields
  parse_binding_entries (entries fs)
parse_binding _ = err bad_binding_fields
