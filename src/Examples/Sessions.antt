-- ===== src/Examples/Sessions.antt =====
-- The theorems on bindings and sessions, at one session.
use orichum.Base.{String, ◌≡◌, refl, none, [], ◌∷◌, string_eq, nat_eq, ◌==◌, map, arith}
use orichum.Base.Result.{ok}
use orichum.Base.Text.{
  matches, is_lower, is_upper, is_digit, is_alnum, is_hex, size, every, strip_prefix, matches_hex16,
}
use orichum.Account.{is_identifier, is_account_id}
use orichum.Account.Registry.{distinct}
use orichum.ModelRouting.{roles, is_model_id, is_stack_name}
use orichum.RouteSelection.{Route}
use orichum.RouteProxy.Policy.{Binding}
use orichum.Sessions.{
  is_session_id, is_profile, is_upstream, hex_then_model, has_scheme, is_foreign,
}
use orichum.Sessions.Bindings.{IsRoute, IsBinding}
use orichum.Sessions.Document.{LogicalSession, Formats, session_json, parse_session}
use orichum.Sessions.RoundTrip.{IsSession, parse_session-json}

abbrev route : String → String → Route
route account upstream = record {
  account_id = account;
  provider = "anthropic";
  family = "claude";
  logical_model = "opus";
  upstream_model = upstream;
  claudex_profile = "ocp-0123456789abcdef";
  priority = 100;
  pool = "team";
}

abbrev pub binding : Binding
binding = record {
  primary = route "oc-a-0123456789abcdef" "oc-r-0123456789abcdef/opus-4";
  fallbacks = route "oc-a-fedcba9876543210" "oc-r-fedcba9876543210/opus-4" ∷ [];
}

primary-IsRoute : IsRoute binding.primary
unfolding is_account_id is_profile is_upstream hex_then_model has_scheme is_model_id is_identifier
    matches_hex16 strip_prefix is_hex every size is_alnum is_digit is_upper is_lower matches
    string_eq nat_eq
primary-IsRoute = record {
  account_ok = refl;
  profile_ok = refl;
  upstream_ok = refl;
  priority_ok = omega arith;
  model_ok = refl;
  provider_ok = refl;
  family_ok = refl;
  pool_ok = refl;
}

fallback-IsRoute : IsRoute (route "oc-a-fedcba9876543210" "oc-r-fedcba9876543210/opus-4")
unfolding is_account_id is_profile is_upstream hex_then_model has_scheme is_model_id is_identifier
    matches_hex16 strip_prefix is_hex every size is_alnum is_digit is_upper is_lower matches
    string_eq nat_eq
fallback-IsRoute = record {
  account_ok = refl;
  profile_ok = refl;
  upstream_ok = refl;
  priority_ok = omega arith;
  model_ok = refl;
  provider_ok = refl;
  family_ok = refl;
  pool_ok = refl;
}

binding-IsBinding : IsBinding binding
unfolding distinct is_foreign string_eq
binding-IsBinding = record {
  primary_ok = primary-IsRoute;
  fallbacks_ok = (fallback-IsRoute, tt);
  one_fallback = omega arith;
  own = refl;
  accounts = refl;
  upstreams = refl;
}

-- One UUID, root and time is taken for canonical.
abbrev pub formats : Formats
formats = record {
  is_uuid4 = λ s. s == "6f1d8a52-7c0e-4b7a-9f52-0d1c2b3a4e5f";
  is_root = λ s. s == "/work";
  is_utc = λ s. s == "2026-01-02T03:04:05Z";
}

abbrev pub session : LogicalSession
session = record {
  id = "oc-s-0123456789abcdef";
  claude_session_id = "6f1d8a52-7c0e-4b7a-9f52-0d1c2b3a4e5f";
  parent_id = none;
  project_root = "/work";
  stack = "main";
  controller = binding;
  agents = map (λ r. (r, binding)) roles;
  leanctx_profile = "lean";
  created_at = "2026-01-02T03:04:05Z";
}

session-IsSession : IsSession formats session
unfolding is_session_id is_stack_name matches_hex16 strip_prefix is_hex every size is_digit is_lower
    matches string_eq nat_eq
session-IsSession = record {
  id_ok = refl;
  claude_id_ok = refl;
  parent_ok = tt;
  root_ok = refl;
  stack_ok = refl;
  controller_ok = binding-IsBinding;
  roles_given = refl;
  agents_ok = (
    binding-IsBinding,
    (
      binding-IsBinding,
      (binding-IsBinding, (binding-IsBinding, (binding-IsBinding, (binding-IsBinding, tt)))),
    ),
  );
  profile_ok = refl;
  time_ok = refl;
}

parse_session-json_example : parse_session formats (session_json session) ≡ ok session
parse_session-json_example = parse_session-json formats session session-IsSession
