-- ===== src/RouteIndex/Served.antt =====
-- What the proxy does for the sessions of the store, before and after a session is made.
use orichum.Base.{ℕ, String, some, List, ◌∷◌, map, ◌≡◌, ◌≢◌, ◌↔◌, refl, sym, subst, In, string_eq}
use orichum.Base.Result.{ok}
use orichum.Json.{Json}
use orichum.ModelRouting.{roles}
use orichum.ModelRouting.Roles.{value_of}
use orichum.RouteProxy.Policy.{
  Binding, Routes, routes_of, request_policy_for, request_policy_for_iff,
}
use orichum.Sessions.Document.{LogicalSession, Formats}
use orichum.Sessions.Store.{Published, Draft, load_logical_session, create_logical_session}
use orichum.Sessions.Changes.{SameBut, insert-SameBut}
use orichum.Sessions.Created.{create_logical_session-IsCreated}
use orichum.RouteIndex.{session_view, load_view, request_policy}

-- The session's bindings for a model, all of them with these routes.
pub record IsBound (s : LogicalSession) (model : String) (r : Routes) : Type 0 where
  pub binding : Binding
  pub stands : In binding (s.controller ∷ map (value_of s.controller s.agents) roles)
  pub of_model : binding.primary.upstream_model ≡ model
  pub routes : routes_of binding ≡ r
  pub agreed :
      (b : Binding)
      → In b (s.controller ∷ map (value_of s.controller s.agents) roles)
      → b.primary.upstream_model ≡ model
      → routes_of b ≡ r

module _ (formats : Formats) (size : Json → ℕ) where
  load_view-ok :
      (p : Published) (id : String) (s : LogicalSession)
      → load_logical_session formats size p id ≡ ok s
      → load_view formats size p id ≡ ok (session_view s)
  unfolding load_view
  load_view-ok p id s h = rw h refl

  request_policy_iff :
      (p : Published) (id model : String) (s : LogicalSession) (r : Routes)
      → load_logical_session formats size p id ≡ ok s
      → (request_policy formats size p (some id) model ≡ ok (some r, s.leanctx_profile))
        ↔ IsBound s model r
  unfolding request_policy session_view
  request_policy_iff p id model s r h =
      let (to, from) =
        request_policy_for_iff (load_view formats size p) id model (session_view s) r
          (load_view-ok p id s h) in
      (
        λ e.
            let ((b, m, q, t), same) = to e in
            record { binding = b; stands = m; of_model = q; routes = t; agreed = same },
        λ k. from ((k.binding, k.stands, k.of_model, k.routes), k.agreed),
      )

  request_policy-same :
      (p after : Published) (i id model : String)
      → SameBut i after p
      → id ≢ i
      → request_policy formats size after (some id) model
        ≡ request_policy formats size p (some id) model
  unfolding request_policy request_policy_for load_view load_logical_session
  request_policy-same p after i id model same n = rw (same id n) refl

  -- Once a session is made, its requests get routes exactly where its bindings for the request's model
  -- agree on them, and the requests of the other sessions get what they got before.
  pub create_logical_session-served :
      (staged : List String) (tokens uuids : ℕ → String) (now : String) (draft : Draft)
      (p after : Published) (s : LogicalSession)
      → create_logical_session formats size staged tokens uuids now draft p ≡ (ok s, after)
      → ((model : String) (r : Routes)
          → (request_policy formats size after (some s.id) model ≡ ok (some r, s.leanctx_profile))
            ↔ IsBound s model r)
        × ((id model : String)
            → id ≢ s.id
            → request_policy formats size after (some id) model
              ≡ request_policy formats size p (some id) model)
  create_logical_session-served staged tokens uuids now draft p after s h =
      let made =
        create_logical_session-IsCreated formats size staged tokens uuids now draft p after s h in
      (
        λ model r. request_policy_iff after s.id model s r made.loaded,
        λ id model n.
            request_policy-same p after s.id id model
              (subst (λ a. SameBut s.id a p) (sym made.added) (insert-SameBut s.id made.document p))
              n,
      )
