-- ===== src/Examples/Served.antt =====
-- The requests of a session that was just made.
use orichum.Base.{String, ◌≡◌, ◌≢◌, ◌↔◌, some, []}
use orichum.Base.Result.{ok}
use orichum.RouteProxy.Policy.{Routes}
use orichum.RouteIndex.{request_policy}
use orichum.RouteIndex.Served.{IsBound, create_logical_session-served}
use orichum.Examples.Sessions.{formats, session}
use orichum.Examples.Store.{measure, store, draft, made, grown, created}

create_logical_session-served_example :
    ((model : String) (r : Routes)
      → (request_policy formats measure grown (some made.id) model
          ≡ ok (some r, made.leanctx_profile))
        ↔ IsBound made model r)
    × ((id model : String)
        → id ≢ made.id
        → request_policy formats measure grown (some id) model
          ≡ request_policy formats measure store (some id) model)
create_logical_session-served_example =
    create_logical_session-served formats measure [] (λ i. "3333333333333333")
      (λ i. session.claude_session_id) session.created_at draft store grown made created
