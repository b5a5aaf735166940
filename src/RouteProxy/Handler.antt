-- ===== src/RouteProxy/Handler.antt =====
-- `_handle` and the methods that it calls: which route a request takes, its one recovery, and what
-- the client gets.
pub mod Rules
pub mod Attempts
pub mod Bound
pub mod Calm
pub mod Ends
pub mod Answers
use orichum.Base.{
  ℕ, zero, suc, ◌+◌, String, Bool, true, false, not, ◌&&◌, ◌||◌, Option, none, some, List, [], ◌∷◌,
  ◌++◌, ltb, ◌==◌, nat_eq, string_eq, contains, if◌then◌else◌,
}
use orichum.Base.Result.{Result, ok, err}
use orichum.RouteSelection.{Route}
use orichum.RouteStatus.{RouteState, Reason, FailureKind, is_session_id}
use orichum.RouteStatus
use orichum.ToolDeferral.{resident_tool_names}
use orichum.RouteProxy.Paths.{upstream_path}
use orichum.RouteProxy.Bodies.{request_model, replace_model}
use orichum.RouteProxy.Policy.{Routes, request_policy_for}
use orichum.RouteProxy.World.{
  Failure, too_large, proxy_error, session_error, os_error, value_error, stream, client_stream,
  Response, Stage, before_output, after_output, at_request, Cause, http_status, pre_output_stream,
  Event, retried, World, Act, pure, raise, lift, gets, catch, modify, ◌>>=◌, ◌>>◌,
}
use orichum.RouteProxy.Upstream.{
  Env, retryable_statuses, trace_select, emit, trace_streaming, trace_complete, trace_fail, trip,
  clear, cooling, upstream, candidate_upstream,
}
use orichum.RouteProxy.Response.{Prepared, prepare, send_response}

-- The `else` branches of `Option` tests, as actions.
unfoldable pub required : {A : Type 0} → Failure → Option A → Act A
required e none = raise e
required e (some a) = pure a

-- What the rest of the handler is told: the model, the fallback route and the resident tools.
pub record Plan : Type 0 where
  pub body : String
  pub primary : Option String
  pub fallback : Option Route
  pub resident : List String

module _ (env : Env) where
  unfoldable pub fallback_upstream :
      String → String → Route → List String → Cause → Option ℕ → Act Response
  fallback_upstream body primary fallback resident cause status = do
    previous ← gets (λ w. elim w.selected_route [ none ↦ none | some r ↦ some r.account_id ])
    trace_select env fallback RouteState.fallback Reason.retry
    emit env (retried cause previous status)
    changed ← required proxy_error (replace_model env.json body primary fallback.upstream_model)
    candidate_upstream env changed resident

  -- The recovery of a response that fails before any output.
  unfoldable pub recover :
      Plan → Bool → Option String → Option Route → Option ℕ → ℕ → Act (Prepared × Bool)
  recover plan true (some primary) (some fallback) status n = do
    trip env primary
    response ← fallback_upstream plan.body primary fallback plan.resident pre_output_stream status
    prepared ← lift (prepare response)
    pure (prepared, false)
  recover plan used_primary primary fallback status n = raise (stream status n)

  -- The `except` of `_prepare_with_fallback`, on what `_prepare_response` gives.
  unfoldable pub prepared_or_recovered :
      Plan → Bool → Result Failure Prepared → Act (Prepared × Bool)
  prepared_or_recovered plan used_primary (ok prepared) = pure (prepared, used_primary)
  prepared_or_recovered plan used_primary (err (stream status n)) =
      recover plan used_primary plan.primary plan.fallback status n
  prepared_or_recovered plan used_primary (err e) = raise e

  unfoldable pub prepare_with_fallback : Plan → Response → Bool → Act (Prepared × Bool)
  prepare_with_fallback plan response used_primary =
      prepared_or_recovered plan used_primary (prepare response)

  unfoldable pub settle_success : Plan → Prepared → Bool → ℕ → Act (Unit {0})
  settle_success plan prepared used_primary n = do
    elim plan.primary [
      | none ↦ pure tt
      | some primary ↦
          (if used_primary && ltb prepared.status 400 then clear env primary else pure tt)
    ]
    trace_complete env prepared.status n

  unfoldable pub settle_failure : Plan → Bool → Failure → Act (Unit {0})
  settle_failure plan used_primary (stream status n) = do
    elim plan.primary [
      | none ↦ pure tt
      | some primary ↦ elim plan.fallback [
        | none ↦ pure tt
        | some r ↦ (if used_primary then trip env primary else pure tt)
      ]
    ]
    trace_fail env FailureKind.upstream status n after_output
  settle_failure plan used_primary (client_stream status n) =
      trace_fail env FailureKind.client (some status) n after_output
  settle_failure plan used_primary e = raise e

  -- The `except` clauses of `_deliver_response`, and what follows them.
  unfoldable pub settle_outcome : Plan → Prepared → Bool → Result Failure ℕ → Act (Unit {0})
  settle_outcome plan prepared used_primary (ok n) = settle_success plan prepared used_primary n
  settle_outcome plan prepared used_primary (err e) = settle_failure plan used_primary e

  unfoldable pub deliver_response : Plan → Prepared → Bool → Act (Unit {0})
  deliver_response plan prepared used_primary = do
    trace_streaming env prepared.status
    outcome ← catch (send_response prepared)
    settle_outcome plan prepared used_primary outcome

  -- The first request: on the primary route, or on the fallback while the primary cools.
  unfoldable pub first_request : Plan → Option Route → Bool → Act Response
  first_request plan primary_route true = do
    elim primary_route [
      | none ↦ pure tt
      | some r ↦ trace_select env r RouteState.primary Reason.by_primary
    ]
    candidate_upstream env plan.body plan.resident
  first_request plan primary_route false = do
    fallback ← required value_error plan.fallback
    primary ← required value_error plan.primary
    trace_select env fallback RouteState.fallback Reason.cooldown
    changed ←
        required proxy_error (replace_model env.json plan.body primary fallback.upstream_model)
    candidate_upstream env changed plan.resident

  -- `used_primary`: the cooldown is asked for only where there is a fallback.
  unfoldable pub uses_primary : Option String → Option Route → Act Bool
  uses_primary (some primary) (some fallback) = do hot ← cooling env primary; pure (not hot)
  uses_primary primary fallback = pure true

  unfoldable pub retry_now : Plan → String → Route → ℕ → Act (Response × Bool)
  retry_now plan primary fallback status = do
    trip env primary
    second ← fallback_upstream plan.body primary fallback plan.resident http_status (some status)
    pure (second, false)

  -- The retry on a status: `none` where there is none, else the fallback's response.
  unfoldable pub retry_on_status : Plan → Bool → Response → Act (Response × Bool)
  retry_on_status plan used_primary response = elim plan.primary [
    | none ↦ pure (response, used_primary)
    | some primary ↦ elim plan.fallback [
      | none ↦ pure (response, used_primary)
      | some fallback ↦
          (if used_primary && contains retryable_statuses response.status
            then retry_now plan primary fallback response.status
            else pure (response, used_primary))
    ]
  ]

  unfoldable pub run_plan : Plan → Option Route → Act (Unit {0})
  run_plan plan primary_route = do
    used_primary ← uses_primary plan.primary plan.fallback
    response ← first_request plan primary_route used_primary
    (second, used) ← retry_on_status plan used_primary response
    (prepared, still) ← prepare_with_fallback plan second used
    deliver_response plan prepared still

  unfoldable pub plan_request : String → Act (Plan × Option Route)
  plan_request body = do
    let primary = request_model env.json body
    let session : Option String = elim env.session_header [
      | none ↦ none
      | some id ↦ (if is_session_id id then some id else none)
    ]
    modify (λ w. record w { session_id = session })
    (routes, profile) ← lift (elim primary [
      | none ↦ ok (none, "full")
      | some model ↦ request_policy_for env.load_session session model
    ])
    resident ← required value_error (resident_tool_names profile)
    let fallback : Option Route = elim routes [ none ↦ none | some (p, f) ↦ f ]
    let primary_route : Option Route = elim routes [ none ↦ none | some (p, f) ↦ some p ]
    pure (
      record { body = body; primary = primary; fallback = fallback; resident = resident },
      primary_route,
    )

  -- `GET /v1/models`, which goes to the catalogue.
  unfoldable pub is_catalog : Act Bool
  is_catalog =
      if env.command == "GET"
      then (do
        path ← required proxy_error (upstream_path env.path)
        pure (env.url_path path == "/v1/models"))
      else pure false

  unfoldable pub catalog_request : String → Act (Unit {0})
  catalog_request body = do
    response ← upstream env body true
    prepared ← lift (prepare response)
    n ← send_response prepared
    pure tt

  -- The body of the `try`.
  unfoldable pub attempt : Act (Unit {0})
  attempt = do
    body ← lift env.body
    catalog ← is_catalog
    if catalog
        then catalog_request body
        else (do (plan, primary_route) ← plan_request body; run_plan plan primary_route)

  unfoldable pub safe_error : ℕ → Act (Unit {0})
  safe_error status w =
      if w.response_started then (ok tt, w) else (ok tt, record w { error_sent = some status })

  -- The `except` clauses. A `ClientStreamError` is a `RouteProxyError`.
  unfoldable pub answer_failure : Failure → Act (Unit {0})
  answer_failure too_large = safe_error 413
  answer_failure (stream status n) = do
    trace_fail env FailureKind.upstream status n before_output
    safe_error 502
  answer_failure value_error = raise value_error
  answer_failure e = do trace_fail env FailureKind.upstream none 0 at_request; safe_error 502

  unfoldable pub answered : Result Failure (Unit {0}) → Act (Unit {0})
  answered (ok u) = pure tt
  answered (err e) = answer_failure e

  unfoldable pub handle : Act (Unit {0})
  handle = do outcome ← catch attempt; answered outcome
