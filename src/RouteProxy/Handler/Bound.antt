-- ===== src/RouteProxy/Handler/Bound.antt =====
-- A request reaches upstream at most four times: on two routes, each time at most twice.
use orichum.Base.{
  ℕ, ◌+◌, ◌≤◌, String, Bool, true, false, Option, none, some, List, nat_eq, string_eq,
  if◌then◌else◌, arith, length, Option-cases, inl, inr,
}
use orichum.Base.Result.{Result, ok, err}
use orichum.RouteSelection.{Route}
use orichum.RouteStatus.{FailureKind}
use orichum.RouteProxy.World.{
  Failure, too_large, proxy_error, session_error, os_error, value_error, stream, client_stream,
  Response, Stage, Cause, before_output, at_request, World, pure, ◌>>◌,
}
use orichum.RouteProxy.Upstream.{Env, trace_fail}
use orichum.RouteProxy.Response.{Prepared, prepare}
use orichum.RouteProxy.Handler.{
  fallback_upstream, Plan, recover, prepare_with_fallback, deliver_response, first_request,
  uses_primary, retry_now, retry_on_status, run_plan, plan_request, is_catalog, catalog_request,
  prepared_or_recovered, settle_outcome, answered, attempt, safe_error, answer_failure, handle,
}
use orichum.RouteProxy.Handler.Rules.{
  sent_by, Within, Still, Within-bind, Within-raise, Within-pure, Within-lift, Within-required,
  Within-if, Within-weak, Within-catch,
}
use orichum.RouteProxy.Handler.Attempts.{
  select-Still, emit-Still, trip-Still, cooling-Still, upstream-Within, candidate-Within,
  send_response-Still, streaming-Still, fail-Still, nothing-Still, success-Still, failure-Still,
}

-- A request that is still on its primary route may be sent twice more.
abbrev spare : Bool → ℕ
spare used_primary = if used_primary then 2 else 0

module _ (env : Env) where
  fallback-Within :
      (p : ℕ) (body primary : String) (route : Route) (resident : List String) (cause : Cause)
      (status : Option ℕ)
      → Within (p + 2) (λ r. p) (fallback_upstream env body primary route resident cause status)
  unfolding fallback_upstream
  fallback-Within p body primary route resident cause status =
      Within-bind (p + 2) (λ a. p + 2) (λ r. p) _ _ (record { at = λ w. omega arith })
        (λ a.
          Within-bind (p + 2) (λ u. p + 2) (λ r. p) _ _ (select-Still env route _ _ (p + 2))
            (λ u.
              Within-bind (p + 2) (λ v. p + 2) (λ r. p) _ _ (emit-Still env _ (p + 2))
                (λ v.
                  Within-bind (p + 2) (λ b. p + 2) (λ r. p) _ _
                    (Within-required (λ b. p + 2) (p + 2) proxy_error _ (λ b. omega arith))
                    (λ b. candidate-Within env p b resident))))

  recover-Within :
      (plan : Plan) (used : Bool) (primary : Option String) (route : Option Route)
      (status : Option ℕ) (n : ℕ)
      → Within (spare used) (λ x. 0) (recover env plan used primary route status n)
  unfolding recover
  recover-Within plan true (some m) (some r) status n =
      Within-bind 2 (λ u. 2) (λ x. 0) _ _ (trip-Still env m 2)
        (λ u.
          Within-bind 2 (λ a. 0) (λ x. 0) _ _ (fallback-Within 0 _ m r _ _ _)
            (λ a.
              Within-bind 0 (λ b. 0) (λ x. 0) _ _ (Within-lift (λ b. 0) 0 _ (λ b. omega arith))
                (λ b. Within-pure (λ x. 0) _)))
  recover-Within plan true (some m) none status n = Within-raise _ 2 _
  recover-Within plan true none route status n = Within-raise _ 2 _
  recover-Within plan false primary route status n = Within-raise _ 0 _

  prepared-Within :
      (plan : Plan) (used : Bool) (r : Result Failure Prepared)
      → Within (spare used) (λ x. 0) (prepared_or_recovered env plan used r)
  unfolding prepared_or_recovered
  prepared-Within plan used (ok prepared) = record { at = λ w. omega arith }
  prepared-Within plan used (err (stream status n)) =
      recover-Within plan used plan.primary plan.fallback status n
  prepared-Within plan used (err too_large) = Within-raise _ (spare used) _
  prepared-Within plan used (err proxy_error) = Within-raise _ (spare used) _
  prepared-Within plan used (err session_error) = Within-raise _ (spare used) _
  prepared-Within plan used (err os_error) = Within-raise _ (spare used) _
  prepared-Within plan used (err value_error) = Within-raise _ (spare used) _
  prepared-Within plan used (err (client_stream s n)) = Within-raise _ (spare used) _

  outcome-Within :
      (plan : Plan) (prepared : Prepared) (used : Bool) (o : Result Failure ℕ)
      → Within 0 (λ u. 0) (settle_outcome env plan prepared used o)
  unfolding settle_outcome
  outcome-Within plan prepared used (ok n) = success-Still env plan prepared used n 0
  outcome-Within plan prepared used (err e) = failure-Still env plan used e 0

  deliver-Within :
      (plan : Plan) (prepared : Prepared) (used : Bool)
      → Within 0 (λ u. 0) (deliver_response env plan prepared used)
  unfolding deliver_response
  deliver-Within plan prepared used =
      Within-bind 0 (λ u. 0) (λ u. 0) _ _ (streaming-Still env prepared.status 0)
        (λ u.
          Within-bind 0 (λ o. 0) (λ v. 0) _ _
            (Within-catch 0 _ (send_response-Still env prepared 0))
            (λ o. outcome-Within plan prepared used o))

  first-Within :
      (plan : Plan) (route : Option Route) (used : Bool)
      → Within 4 (λ r. 2) (first_request env plan route used)
  unfolding first_request
  first-Within plan none true =
      Within-bind 4 (λ u. 4) (λ r. 2) _ _ (nothing-Still env 4) (λ u. candidate-Within env 2 _ _)
  first-Within plan (some r) true =
      Within-bind 4 (λ u. 4) (λ r. 2) _ _ (select-Still env r _ _ 4)
        (λ u. candidate-Within env 2 _ _)
  first-Within plan route false =
      Within-bind 4 (λ f. 4) (λ r. 2) _ _ (Within-required (λ f. 4) 4 _ _ (λ f. omega arith))
        (λ f.
          Within-bind 4 (λ m. 4) (λ r. 2) _ _ (Within-required (λ m. 4) 4 _ _ (λ m. omega arith))
            (λ m.
              Within-bind 4 (λ u. 4) (λ r. 2) _ _ (select-Still env f _ _ 4)
                (λ u.
                  Within-bind 4 (λ b. 4) (λ r. 2) _ _
                    (Within-required (λ b. 4) 4 _ _ (λ b. omega arith))
                    (λ b. candidate-Within env 2 _ _))))

  uses-Within :
      (primary : Option String) (fallback : Option Route)
      → Within 4 (λ t. 4) (uses_primary env primary fallback)
  unfolding uses_primary
  uses-Within (some m) (some r) =
      Within-bind 4 (λ t. 4) (λ t. 4) _ _ (cooling-Still env m 4) (λ t. Within-pure (λ t. 4) _)
  uses-Within (some m) none = Within-pure (λ t. 4) _
  uses-Within none fallback = Within-pure (λ t. 4) _

  spare_le : (used : Bool) → spare used ≤ 2
  spare_le true = omega arith
  spare_le false = omega arith

  kept :
      (r : Response) (used : Bool)
      → Within {A = Response × Bool} 2 (λ x. spare x.1) (pure (r, used))
  kept r used =
      Within-weak (spare used) 2 _ _ (spare_le used) (Within-pure (λ x. spare x.1) (r, used))

  retry_now-Within :
      (plan : Plan) (m : String) (r : Route) (status : ℕ)
      → Within 2 (λ x. spare x.1) (retry_now env plan m r status)
  unfolding retry_now
  retry_now-Within plan m r status =
      Within-bind 2 (λ u. 2) (λ x. spare x.1) _ _ (trip-Still env m 2)
        (λ u.
          Within-bind 2 (λ a. 0) (λ x. spare x.1) _ _ (fallback-Within 0 _ m r _ _ _)
            (λ a. Within-pure (λ x. spare x.1) _))

  retry-Within :
      (plan : Plan) (used : Bool) (response : Response)
      → Within 2 (λ x. spare x.1) (retry_on_status env plan used response)
  unfolding retry_on_status retry_now
  retry-Within plan used response = elim (Option-cases plan.primary) [
    | inl e ↦ rw e (kept response used)
    | inr (m, e) ↦ elim (Option-cases plan.fallback) [
      | inl f ↦ rw (e, f) (kept response used)
      | inr (r, f) ↦
          rw (e, f)
            (Within-if (λ x. spare x.1) 2 _ _ _ (retry_now-Within plan m r response.status)
              (kept response used))
    ]
  ]

  run-Within : (plan : Plan) (route : Option Route) → Within 4 (λ u. 0) (run_plan env plan route)
  unfolding run_plan prepare_with_fallback
  run-Within plan route =
      Within-bind 4 (λ t. 4) (λ u. 0) _ _ (uses-Within plan.primary plan.fallback)
        (λ used.
          Within-bind 4 (λ r. 2) (λ u. 0) _ _ (first-Within plan route used)
            (λ r.
              Within-bind 2 (λ x. spare x.1) (λ u. 0) _ _ (retry-Within plan used r)
                (λ x.
                  Within-bind (spare x.1) (λ y. 0) (λ u. 0) _ _
                    (prepared-Within plan x.1 (prepare x.0)) (λ y. deliver-Within plan y.0 y.1))))

  plan-Within : (body : String) → Within 4 (λ x. 4) (plan_request env body)
  unfolding plan_request
  plan-Within body =
      Within-bind 4 (λ u. 4) (λ x. 4) _ _ (record { at = λ w. omega arith })
        (λ u.
          Within-bind 4 (λ a. 4) (λ x. 4) _ _ (Within-lift (λ a. 4) 4 _ (λ a. omega arith))
            (λ a.
              Within-bind 4 (λ r. 4) (λ x. 4) _ _
                (Within-required (λ r. 4) 4 _ _ (λ r. omega arith)) (λ r. Within-pure (λ x. 4) _)))

  catalog-Within : (body : String) → Within 4 (λ u. 0) (catalog_request env body)
  unfolding catalog_request
  catalog-Within body = Within-weak 1 4 _ _ (omega arith) (
      Within-bind 1 (λ r. 0) (λ u. 0) _ _ (upstream-Within env 0 body true)
        (λ r.
          Within-bind 0 (λ a. 0) (λ u. 0) _ _ (Within-lift (λ a. 0) 0 _ (λ a. omega arith))
            (λ a.
              Within-bind 0 (λ n. 0) (λ u. 0) _ _ (send_response-Still env a 0)
                (λ n. Within-pure (λ u. 0) _))))

  is_catalog-Within : Within 4 (λ t. 4) (is_catalog env)
  unfolding is_catalog
  is_catalog-Within =
      Within-if (λ t. 4) 4 _ _ _
        (Within-bind 4 (λ p. 4) (λ t. 4) _ _ (Within-required (λ p. 4) 4 _ _ (λ p. omega arith))
          (λ p. Within-pure (λ t. 4) _))
        (Within-pure (λ t. 4) _)

  attempt-Within : Within 4 (λ u. 0) (attempt env)
  unfolding attempt
  attempt-Within =
      Within-bind 4 (λ b. 4) (λ u. 0) _ _ (Within-lift (λ b. 4) 4 _ (λ b. omega arith))
        (λ b.
          Within-bind 4 (λ t. 4) (λ u. 0) _ _ is_catalog-Within
            (λ t.
              Within-if (λ u. 0) 4 t _ _ (catalog-Within b)
                (Within-bind 4 (λ x. 4) (λ u. 0) _ _ (plan-Within b) (λ x. run-Within x.0 x.1))))

  error-Still : (status : ℕ) → Still (safe_error env status)
  unfolding safe_error
  error-Still status p = record { at = λ w. ground arith }

  failed-Within :
      (status : Option ℕ) (n : ℕ) (stage : Stage)
      → Within 0 (λ u. 0) (trace_fail env FailureKind.upstream status n stage >> safe_error env 502)
  failed-Within status n stage =
      Within-bind 0 (λ u. 0) (λ u. 0) _ _ (fail-Still env _ status n stage 0)
        (λ u. error-Still 502 0)

  answered-Within : (r : Result Failure (Unit {0})) → Within 0 (λ u. 0) (answered env r)
  unfolding answered answer_failure
  answered-Within (ok u) = Within-pure (λ u. 0) tt
  answered-Within (err too_large) = error-Still 413 0
  answered-Within (err proxy_error) = failed-Within none 0 at_request
  answered-Within (err session_error) = failed-Within none 0 at_request
  answered-Within (err os_error) = failed-Within none 0 at_request
  answered-Within (err value_error) = Within-raise _ 0 _
  answered-Within (err (stream status n)) = failed-Within status n before_output
  answered-Within (err (client_stream status n)) = failed-Within none 0 at_request

  -- Whatever the request, the session's routes and the replies, the handler sends at most four
  -- requests upstream.
  pub handle-sent_le : (w : World) → length (handle env w).1.sent ≤ length w.sent + 4
  unfolding handle
  handle-sent_le w = omega (
    arith,
    sent_by_zero (handle env w),
    (Within-bind 4 (λ o. 0) (λ u. 0) _ _ (Within-catch 4 _ attempt-Within)
          (λ o. answered-Within o)).at
        w,
  )
    where
      sent_by_zero : (x : Result Failure (Unit {0}) × World) → length x.1.sent ≤ sent_by (λ u. 0) x
      sent_by_zero (ok u, v) = omega arith
      sent_by_zero (err e, v) = omega arith
