-- ===== src/RouteIndex.antt =====
-- `RouteIndex` of integrations/common/route_proxy.py, over the store of sessions: what the proxy's
-- handler learns of the session that a request names.
pub mod Served
use orichum.Base.{ℕ, String, Option, none, some, List, ◌∷◌, map}
use orichum.Base.Result.{ok, ◌>>=◌}
use orichum.Json.{Json}
use orichum.ModelRouting.{roles}
use orichum.ModelRouting.Roles.{value_of}
use orichum.RouteProxy.Policy.{Session, Routes, request_policy_for}
use orichum.Sessions.{Checked}
use orichum.Sessions.Document.{LogicalSession, Formats}
use orichum.Sessions.Store.{Published, load_logical_session}

-- The bindings that are looked at; a session that is loaded has every role.
unfoldable pub session_view : LogicalSession → Session
session_view s = record {
  bindings = s.controller ∷ map (value_of s.controller s.agents) roles;
  leanctx_profile = s.leanctx_profile;
}

module _ (formats : Formats) (size : Json → ℕ) (published : Published) where
  unfoldable pub load_view : String → Checked Session
  load_view session_id = do
    s ← load_logical_session formats size published session_id
    ok (session_view s)

  unfoldable pub request_policy : Option String → String → Checked (Option Routes × String)
  request_policy = request_policy_for load_view

  unfoldable pub routes_for : Option String → String → Checked (Option Routes)
  routes_for session_id model = do policy ← request_policy session_id model; ok policy.0

  unfoldable pub fallback_for : Option String → String → Checked (Option String)
  fallback_for session_id model = do
    routes ← routes_for session_id model
    ok (elim routes [
      | none ↦ none
      | some (primary, fallback) ↦ elim fallback [ none ↦ none | some r ↦ some r.upstream_model ]
    ])
