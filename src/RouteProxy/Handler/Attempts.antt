-- ===== src/RouteProxy/Handler/Attempts.antt =====
-- How often one request reaches upstream. The rules count by a potential: `m` may send `p` requests,
-- and what it returns says how many the rest may still send.
use orichum.Base.{
  ℕ, zero, suc, ◌+◌, ◌≤◌, String, Bool, false, Option, none, some, List, [], ◌∷◌, nat_eq, string_eq,
  if◌then◌else◌, ◌≡◌, ap, arith, length, length-append, Option-cases, inl, inr,
}
use orichum.Base.Result.{Result, ok, err}
use orichum.RouteSelection.{Route}
use orichum.RouteStatus.{RouteState, Reason, RouteStatus, FailureKind}
use orichum.RouteStatus
use orichum.RouteProxy.World.{
  Failure, stream, client_stream, Response, Reply, refused, unowned, dropped, answered, Stage,
  after_output, Event, Read, block, broken, World, pure,
}
use orichum.RouteProxy.Upstream.{
  Env, from_status, trace_select, emit, trace_update, trace_streaming, trace_complete, trace_fail,
  trip, clear, cooling, fail_upstream, send_upstream, next_reply, exchange, upstream,
  candidate_upstream,
}
use orichum.RouteProxy.Response.{Prepared, write, forward, send_prelude, send_response}
use orichum.RouteProxy.Handler.{Plan, settle_success, settle_failure}
use orichum.RouteProxy.Handler.Rules.{
  sent_by, Within, Still, Within-bind, Within-raise, Within-pure, Within-if,
}

module _ (env : Env) where
  from_status-Still : (r : Result RouteStatus.StatusError RouteStatus.Store) → Still (from_status r)
  unfolding from_status
  from_status-Still (ok s) p = record { at = λ w. omega arith }
  from_status-Still (err e) p = record { at = λ w. omega arith }

  pub select-Still :
      (route : Route) (state : RouteState) (reason : Reason)
      → Still (trace_select env route state reason)
  unfolding trace_select from_status
  select-Still route state reason p = record { at = λ w. ground arith }

  update-Still : (changes : RouteStatus → RouteStatus) → Still (trace_update env changes)
  unfolding trace_update from_status
  update-Still changes p = record { at = λ w. ground arith }

  pub emit-Still : (e : Event) → Still (emit env e)
  unfolding emit
  emit-Still e p = record { at = λ w. omega arith }

  pub trip-Still : (m : String) → Still (trip env m)
  unfolding trip
  trip-Still m p = record { at = λ w. omega arith }

  clear-Still : (m : String) → Still (clear env m)
  unfolding clear
  clear-Still m p = record { at = λ w. omega arith }

  pub cooling-Still : (m : String) → Still (cooling env m)
  unfolding cooling
  cooling-Still m p = record { at = λ w. omega arith }

  send_upstream-le :
      (body : String) (catalog : Bool) (w : World)
      → length (send_upstream env body catalog w).1.sent ≤ length w.sent + 1
  unfolding send_upstream
  send_upstream-le body catalog w =
      ground (arith, length-append w.sent ((record { body = body; catalog = catalog }) ∷ []))

  exchange-le :
      (body : String) (catalog : Bool) (reply : Reply) (w : World)
      → length (exchange env body catalog reply w).1.sent ≤ length w.sent + 1
  unfolding exchange fail_upstream
  exchange-le body catalog refused w = omega arith
  exchange-le body catalog unowned w = omega arith
  exchange-le body catalog dropped w = ground (arith, send_upstream-le body catalog w)
  exchange-le body catalog (answered r) w = ground (arith, send_upstream-le body catalog w)

  next_reply-sent : (w : World) → (next_reply env w).1.sent ≡ w.sent
  unfolding next_reply
  next_reply-sent w = ground arith

  sent_by-const :
      (p : ℕ) (x : Result Failure Response × World) → sent_by (λ r. p) x ≤ length x.1.sent + p
  sent_by-const p (ok a, w) = omega arith
  sent_by-const p (err e, w) = omega arith

  pub upstream-Within :
      (p : ℕ) (body : String) (catalog : Bool) → Within (p + 1) (λ r. p) (upstream env body catalog)
  unfolding upstream
  upstream-Within p body catalog = record {
    at = λ w.
        let (reply, v) = next_reply env w in
        omega (
          arith,
          sent_by-const p (exchange env body catalog reply v),
          exchange-le body catalog reply v,
          ap (λ l. length l) (next_reply-sent w),
        );
  }

  write-Still : (bs : List ℕ) → Still (write bs)
  unfolding write
  write-Still bs p = record { at = λ w. ground arith }

  pub candidate-Within :
      (p : ℕ) (body : String) (resident : List String)
      → Within (p + 2) (λ r. p) (candidate_upstream env body resident)
  unfolding candidate_upstream
  candidate-Within p body resident =
      Within-bind (p + 2) (λ r. p + 1) (λ r. p) _ _ (first _)
        (λ r. Within-if (λ x. p) (p + 1) _ _ _ (upstream-Within p _ false) (kept r))
    where
      first : (b : String) → Within (p + 2) (λ r. p + 1) (upstream env b false)
      first b = record { at = λ w. omega (arith, (upstream-Within (p + 1) b false).at w) }

      kept : (r : Response) → Within (p + 1) (λ x. p) (pure r)
      kept r = record { at = λ w. omega arith }

  forward-Still :
      (status : ℕ) (remaining : Option ℕ) (n : ℕ) (reads : List Read)
      → Still (forward status remaining n reads)
  unfolding forward
  forward-Still status none n [] p = record { at = λ w. omega arith }
  forward-Still status (some zero) n [] p = record { at = λ w. omega arith }
  forward-Still status (some (suc k)) n [] p = record { at = λ w. omega arith }
  forward-Still status remaining n (broken ∷ reads) p = Within-raise _ p _
  forward-Still status none n (block [] ∷ reads) p = record { at = λ w. omega arith }
  forward-Still status (some zero) n (block [] ∷ reads) p = record { at = λ w. omega arith }
  forward-Still status (some (suc k)) n (block [] ∷ reads) p = record { at = λ w. omega arith }
  forward-Still status remaining n (block (b ∷ bs) ∷ reads) p =
      let deeper = forward-Still status remaining (n + length (b ∷ bs)) reads p in
      Within-bind p (λ t. p) (λ k. p) (write (b ∷ bs)) _ (write-Still (b ∷ bs) p)
        (λ t. Within-if (λ k. p) p t _ _ deeper (Within-raise _ p _))

  prelude-Still : (status : ℕ) (bs : List ℕ) → Still (send_prelude status bs)
  unfolding send_prelude
  prelude-Still status [] p = Within-pure (λ k. p) 0
  prelude-Still status (b ∷ bs) p =
      Within-bind p (λ t. p) (λ k. p) _ _ (write-Still (b ∷ bs) p)
        (λ t. Within-if (λ k. p) p t _ _ (Within-pure (λ k. p) _) (Within-raise _ p _))

  pub send_response-Still : (r : Prepared) → Still (send_response r)
  unfolding send_response
  send_response-Still r p =
      Within-bind p (λ u. p) (λ k. p) _ _ (record { at = λ w. omega arith })
        (λ u.
          Within-bind p (λ t. p) (λ k. p) _ _ (write-Still [] p)
            (λ t.
              Within-bind p (λ n. p) (λ k. p) _ _
                (Within-if (λ n. p) p t _ _ (prelude-Still r.status r.prelude p)
                  (Within-raise _ p _))
                (λ n. forward-Still r.status r.remaining n r.rest p)))

  pub streaming-Still : (n : ℕ) → Still (trace_streaming env n)
  unfolding trace_streaming
  streaming-Still n p = Within-bind p (λ u. p) (λ u. p) _ _ (update-Still _ p) (λ u. emit-Still _ p)

  complete-Still : (n k : ℕ) → Still (trace_complete env n k)
  unfolding trace_complete
  complete-Still n k p =
      Within-bind p (λ u. p) (λ u. p) _ _ (update-Still _ p) (λ u. emit-Still _ p)

  pub fail-Still :
      (kind : FailureKind) (status : Option ℕ) (k : ℕ) (stage : Stage)
      → Still (trace_fail env kind status k stage)
  unfolding trace_fail
  fail-Still kind status k stage p =
      Within-bind p (λ u. p) (λ u. p) _ _ (update-Still _ p) (λ u. emit-Still _ p)

  pub nothing-Still : Still (pure tt)
  nothing-Still p = Within-pure (λ u. p) tt

  pub success-Still :
      (plan : Plan) (r : Prepared) (used : Bool) (n : ℕ) → Still (settle_success env plan r used n)
  unfolding settle_success
  success-Still plan r used n p = elim (Option-cases plan.primary) [
    | inl e ↦
        rw e (Within-bind p (λ u. p) (λ u. p) _ _ (nothing-Still p) (λ u. complete-Still _ n p))
    | inr (m, e) ↦ rw e (
        Within-bind p (λ u. p) (λ u. p) _ _
          (Within-if (λ u. p) p _ _ _ (clear-Still m p) (nothing-Still p))
          (λ u. complete-Still _ n p))
  ]

  pub failure-Still :
      (plan : Plan) (used : Bool) (e : Failure) → Still (settle_failure env plan used e)
  unfolding settle_failure
  failure-Still plan used (stream status n) p =
      Within-bind p (λ u. p) (λ u. p) _ _ (tripped plan.primary plan.fallback)
        (λ u. fail-Still FailureKind.upstream status n after_output p)
    where
      tripped :
          (primary : Option String) (fallback : Option Route)
          → Within p
              (λ u. p)
              (elim primary [
                | none ↦ pure tt
                | some m ↦ elim fallback [
                  | none ↦ pure tt
                  | some r ↦ (if used then trip env m else pure tt)
                ]
              ])
      tripped none fallback = nothing-Still p
      tripped (some m) none = nothing-Still p
      tripped (some m) (some r) = Within-if (λ u. p) p used _ _ (trip-Still m p) (nothing-Still p)
  failure-Still plan used (client_stream status n) p =
      fail-Still FailureKind.client (some status) n after_output p
  failure-Still plan used e p = Within-raise _ p _
