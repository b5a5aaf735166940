-- ===== src/RouteProxy/Upstream.antt =====
-- The handler's calls upstream, and the trace of the request.
use orichum.Base.{
  ℕ, ◌+◌, String, Bool, false, ◌&&◌, Option, none, some, List, [], ◌∷◌, ◌++◌, nat_eq, string_eq,
  contains, if◌then◌else◌,
}
use orichum.Base.Result.{Result, ok, err}
use orichum.RouteSelection.{Route}
use orichum.RouteStatus.{
  RouteState, Reason, RouteStatus, FailureKind, StatusError, on_streaming, on_complete, on_fail,
}
use orichum.RouteStatus
use orichum.Cooldowns
use orichum.ToolDeferral.{transform_request}
use orichum.RouteProxy.Paths.{upstream_path}
use orichum.RouteProxy.Bodies.{Codec, strip_unsupported}
use orichum.RouteProxy.Policy.{Session}
use orichum.RouteProxy.World.{
  Failure, proxy_error, os_error, value_error, Response, Reply, refused, unowned, dropped, answered,
  Stage, Event, streamed, completed, failed_with, World, Act, pure, ◌>>=◌, ◌>>◌,
}

-- What a request comes with, and what the server knows: the body that `_read_request_body` reads or
-- the error that it raises, the session store, and the path of a URL as `urlsplit` gives it.
pub record Env : Type 0 where
  pub json : Codec
  pub command : String
  pub path : String
  pub body : Result Failure String
  pub session_header : Option String
  pub request_id : String
  pub load_session : String → Result Failure Session
  pub url_path : String → String
  pub attested : Bool

abbrev pub retryable_statuses : List ℕ
retryable_statuses = 401 ∷ 403 ∷ 408 ∷ 429 ∷ 500 ∷ 502 ∷ 503 ∷ 504 ∷ []

unfoldable pub from_status : Result StatusError RouteStatus.Store → Act (Unit {0})
from_status (ok s) w = (ok tt, record w { store = s; ticks = w.ticks + 1 })
from_status (err e) w = (err value_error, w)

module _ (env : Env) where
  -- `RouteRequestTrace.select`
  unfoldable pub trace_select : Route → RouteState → Reason → Act (Unit {0})
  trace_select route state reason w =
      let w' = record w { selected_route = some route } in
      elim w.session_id [
        | none ↦ (ok tt, w')
        | some id ↦
            from_status
              (RouteStatus.select id env.request_id route state reason (w.stamps w.ticks) w.store)
              w'
      ]

  unfoldable pub emit : Event → Act (Unit {0})
  emit e w = (ok tt, record w { events = w.events ++ e ∷ [] })

  -- The status update that `streaming`, `complete` and `fail` share.
  unfoldable pub trace_update : (RouteStatus → RouteStatus) → Act (Unit {0})
  trace_update changes w = elim w.session_id [
    | none ↦ (ok tt, w)
    | some id ↦ elim w.selected_route [
      | none ↦ (ok tt, w)
      | some r ↦
          from_status (RouteStatus.update id env.request_id changes (w.stamps w.ticks) w.store) w
    ]
  ]

  unfoldable pub trace_streaming : ℕ → Act (Unit {0})
  trace_streaming status = do trace_update (on_streaming status); emit (streamed status)

  unfoldable pub trace_complete : ℕ → ℕ → Act (Unit {0})
  trace_complete status bytes = do
    trace_update (on_complete status bytes)
    emit (completed status bytes)

  unfoldable pub trace_fail : FailureKind → Option ℕ → ℕ → Stage → Act (Unit {0})
  trace_fail kind status bytes stage = do
    trace_update (on_fail status bytes kind)
    emit (failed_with kind status bytes stage)

  -- The cooldown table, at the time of the call.
  unfoldable pub trip : String → Act (Unit {0})
  trip model w = (
    ok tt,
    record w {
      cooldowns = Cooldowns.trip model (w.clock w.ticks) w.cooldowns;
      ticks = w.ticks + 1;
    },
  )

  unfoldable pub clear : String → Act (Unit {0})
  clear model w = (ok tt, record w { cooldowns = Cooldowns.clear model w.cooldowns })

  unfoldable pub cooling : String → Act Bool
  cooling model w =
      let (hot, c) = Cooldowns.active model (w.clock w.ticks) w.cooldowns in
      (ok hot, record w { cooldowns = c; ticks = w.ticks + 1 })

  -- The `except` of `_upstream`: the attestation is taken back, if there is one.
  unfoldable pub fail_upstream : Failure → Act Response
  fail_upstream e w = (
    err e,
    record w { invalidations = if env.attested then w.invalidations + 1 else w.invalidations },
  )

  -- The request goes out if its path is the proxy's own.
  unfoldable pub send_upstream : String → Bool → Act (Unit {0})
  send_upstream body catalog w = elim (upstream_path env.path) [
    | none ↦ (err proxy_error, w)
    | some p ↦
        (ok tt, record w { sent = w.sent ++ (record { body = body; catalog = catalog }) ∷ [] })
  ]

  unfoldable pub next_reply : World → Reply × World
  next_reply w = elim w.replies [ [] ↦ (refused, w) | r ∷ rest ↦ (r, record w { replies = rest }) ]

  unfoldable pub exchange : String → Bool → Reply → Act Response
  exchange body catalog refused = fail_upstream os_error
  exchange body catalog unowned = fail_upstream proxy_error
  exchange body catalog dropped = λ w.
      let (r, w') = send_upstream body catalog w in
      elim r [ ok u ↦ fail_upstream os_error w' | err e ↦ fail_upstream e w' ]
  exchange body catalog (answered response) = λ w.
      let (r, w') = send_upstream body catalog w in
      elim r [ ok u ↦ (ok response, w') | err e ↦ fail_upstream e w' ]

  unfoldable pub upstream : String → Bool → Act Response
  upstream body catalog w = let (reply, w') = next_reply w in exchange body catalog reply w'

  -- A transformed request that is refused as malformed is sent again as it came.
  unfoldable pub candidate_upstream : String → List String → Act Response
  candidate_upstream body resident =
      let original = strip_unsupported env.json body in
      let candidate = transform_request env.json.loads env.json.dumps original resident in
      do
        response ← upstream candidate.body false
        if candidate.transformed && contains (400 ∷ 422 ∷ []) response.status
            then upstream original false
            else pure response
