-- ===== src/RouteProxy/Handler/Answers.antt =====
-- What the client gets: the upstream's reply or an error reply, and never both.
use orichum.Base.{
  ℕ, String, Bool, true, false, Option, none, some, List, nat_eq, string_eq, if◌then◌else◌, ◌≡◌, ap,
  refl, ◌∙◌, ◌⊎◌, inl, inr, arith, Option-cases,
}
use orichum.Base.Result.{Result, ok, err}
use orichum.RouteSelection.{Route}
use orichum.RouteStatus.{FailureKind}
use orichum.RouteProxy.World.{
  Failure, too_large, proxy_error, session_error, os_error, value_error, stream, client_stream,
  Response, Stage, Cause, World, Act, continue, at_request, before_output, ◌>>=◌, ◌>>◌,
}
use orichum.RouteProxy.Upstream.{Env, trace_fail}
use orichum.RouteProxy.Response.{Prepared, prepare}
use orichum.RouteProxy.Handler
use orichum.RouteProxy.Handler.{
  required, Plan, fallback_upstream, recover, prepared_or_recovered, prepare_with_fallback,
  settle_success, settle_failure, settle_outcome, deliver_response, first_request, uses_primary,
  retry_now, retry_on_status, run_plan, plan_request, is_catalog, catalog_request, attempt,
  safe_error, answer_failure, handle,
}
use orichum.RouteProxy.Handler.Calm.{
  view, Calm, Calm-bind, Calm-pure, Calm-raise, Calm-lift, Calm-required, Calm-if, Calm-select,
  Calm-emit, Calm-trip, Calm-cooling, Calm-upstream, Calm-candidate, Calm-fail,
}
use orichum.RouteProxy.Handler.Ends.{
  Began, Unsent, Ends, Ends-bind, Ends-then, send_response-Began, deliver-Ends,
}

module _ (env : Env) where
  Calm-fallback :
      (body primary : String) (route : Route) (resident : List String) (cause : Cause)
      (status : Option ℕ)
      → Calm (fallback_upstream env body primary route resident cause status)
  unfolding fallback_upstream
  Calm-fallback body primary route resident cause status =
      Calm-bind _ _ (record { same = λ w. refl })
        (λ a. Calm-bind _ _ (Calm-select env route _ _) (λ u.
          Calm-bind _ _ (Calm-emit env _)
            (λ v. Calm-bind _ _ (Calm-required _ _) (λ b. Calm-candidate env b resident))))

  Calm-recover :
      (plan : Plan) (used : Bool) (primary : Option String) (route : Option Route)
      (status : Option ℕ) (n : ℕ)
      → Calm (recover env plan used primary route status n)
  unfolding recover
  Calm-recover plan true (some m) (some r) status n = Calm-bind _ _ (Calm-trip env m) (λ u.
      Calm-bind _ _ (Calm-fallback _ m r _ _ _)
        (λ a. Calm-bind _ _ (Calm-lift _) (λ b. Calm-pure _)))
  Calm-recover plan true (some m) none status n = Calm-raise _
  Calm-recover plan true none route status n = Calm-raise _
  Calm-recover plan false primary route status n = Calm-raise _

  Calm-prepared :
      (plan : Plan) (used : Bool) (r : Result Failure Prepared)
      → Calm (prepared_or_recovered env plan used r)
  unfolding prepared_or_recovered
  Calm-prepared plan used (ok p) = Calm-pure _
  Calm-prepared plan used (err (stream status n)) = Calm-recover plan used _ _ status n
  Calm-prepared plan used (err (client_stream status n)) = Calm-raise _
  Calm-prepared plan used (err too_large) = Calm-raise _
  Calm-prepared plan used (err proxy_error) = Calm-raise _
  Calm-prepared plan used (err session_error) = Calm-raise _
  Calm-prepared plan used (err os_error) = Calm-raise _
  Calm-prepared plan used (err value_error) = Calm-raise _

  Calm-first :
      (plan : Plan) (route : Option Route) (used : Bool) → Calm (first_request env plan route used)
  unfolding first_request
  Calm-first plan none true = Calm-bind _ _ (Calm-pure tt) (λ u. Calm-candidate env _ _)
  Calm-first plan (some r) true =
      Calm-bind _ _ (Calm-select env r _ _) (λ u. Calm-candidate env _ _)
  Calm-first plan route false = Calm-bind _ _ (Calm-required _ _) (λ f.
      Calm-bind _ _ (Calm-required _ _) (λ m.
        Calm-bind _ _ (Calm-select env f _ _)
          (λ u. Calm-bind _ _ (Calm-required _ _) (λ b. Calm-candidate env _ _))))

  Calm-uses :
      (primary : Option String) (route : Option Route) → Calm (uses_primary env primary route)
  unfolding uses_primary
  Calm-uses (some m) (some r) = Calm-bind _ _ (Calm-cooling env m) (λ t. Calm-pure _)
  Calm-uses (some m) none = Calm-pure _
  Calm-uses none route = Calm-pure _

  Calm-now :
      (plan : Plan) (m : String) (r : Route) (status : ℕ) → Calm (retry_now env plan m r status)
  unfolding retry_now
  Calm-now plan m r status =
      Calm-bind _ _ (Calm-trip env m)
        (λ u. Calm-bind _ _ (Calm-fallback _ m r _ _ _) (λ a. Calm-pure _))

  Calm-retry :
      (plan : Plan) (used : Bool) (response : Response)
      → Calm (retry_on_status env plan used response)
  unfolding retry_on_status retry_now
  Calm-retry plan used response = elim (Option-cases plan.primary) [
    | inl e ↦ rw e (Calm-pure _)
    | inr (m, e) ↦ elim (Option-cases plan.fallback) [
      | inl f ↦ rw (e, f) (Calm-pure _)
      | inr (r, f) ↦ rw (e, f) (Calm-if _ _ _ (Calm-now plan m r response.status) (Calm-pure _))
    ]
  ]

  run-Ends : (plan : Plan) (route : Option Route) → Ends (run_plan env plan route)
  unfolding run_plan prepare_with_fallback
  run-Ends plan route = Ends-bind _ _ (Calm-uses plan.primary plan.fallback) (λ used.
      Ends-bind _ _ (Calm-first plan route used) (λ r. Ends-bind _ _ (Calm-retry plan used r) (λ x.
        Ends-bind _ _ (Calm-prepared plan x.1 (prepare x.0)) (λ y. deliver-Ends env plan y.0 y.1))))

  Calm-plan : (body : String) → Calm (plan_request env body)
  unfolding plan_request
  Calm-plan body =
      Calm-bind _ _ (record { same = λ w. refl })
        (λ u.
          Calm-bind _ _ (Calm-lift _) (λ a. Calm-bind _ _ (Calm-required _ _) (λ r. Calm-pure _)))

  Calm-is_catalog : Calm (is_catalog env)
  unfolding is_catalog
  Calm-is_catalog =
      Calm-if _ _ _ (Calm-bind _ _ (Calm-required _ _) (λ p. Calm-pure _)) (Calm-pure _)

  catalog-Ends : (body : String) → Ends (catalog_request env body)
  unfolding catalog_request
  catalog-Ends body = Ends-bind _ _ (Calm-upstream env body true) (λ r.
      Ends-bind _ _ (Calm-lift _)
        (λ p. Ends-then _ _ (λ w q. send_response-Began env p w q) (λ n. Calm-pure _)))

  Ends-if : (t : Bool) (m n : Act (Unit {0})) → Ends m → Ends n → Ends (if t then m else n)
  Ends-if true m n h k = h
  Ends-if false m n h k = k

  attempt-Ends : Ends (attempt env)
  unfolding attempt
  attempt-Ends = Ends-bind _ _ (Calm-lift _) (λ b.
      Ends-bind _ _ Calm-is_catalog
        (λ t. Ends-if t _ _ (catalog-Ends b) (Ends-bind _ _ (Calm-plan b) (λ x. run-Ends x.0 x.1))))

  -- The reply has begun and no error reply was sent, or the reverse.
  abbrev IsAnswered : World → Type 0
  IsAnswered w = Began w ⊎ ((status : ℕ) × (view w ≡ (false, some status)))

  safe_error-IsAnswered :
      (status : ℕ) (w : World) → Began w ⊎ Unsent w → IsAnswered (safe_error env status w).1
  unfolding safe_error
  safe_error-IsAnswered status w (inl h) = inl (ground (arith, h))
  safe_error-IsAnswered status w (inr h) = inr (status, ground (arith, h))

  kept :
      {A : Type 0} (m : Act A) (w : World)
      → Calm m
      → Began w ⊎ Unsent w
      → Began (m w).1 ⊎ Unsent (m w).1
  kept m w c (inl h) = inl (c.same w ∙ h)
  kept m w c (inr h) = inr (c.same w ∙ h)

  failed-IsAnswered :
      (status : Option ℕ) (n : ℕ) (stage : Stage) (w : World)
      → Began w ⊎ Unsent w
      → ((trace_fail env FailureKind.upstream status n stage >> safe_error env 502) w).0 ≡ ok tt
      → IsAnswered ((trace_fail env FailureKind.upstream status n stage >> safe_error env 502) w).1
  unfolding ◌>>=◌
  failed-IsAnswered status n stage w h =
      go (trace_fail env FailureKind.upstream status n stage w)
        (kept _ w (Calm-fail env FailureKind.upstream status n stage) h)
    where
      go :
          (x : Result Failure (Unit {0}) × World)
          → Began x.1 ⊎ Unsent x.1
          → (continue x.0 (λ u. safe_error env 502) x.1).0 ≡ ok tt
          → IsAnswered (continue x.0 (λ u. safe_error env 502) x.1).1
      go (ok u, v) k e = safe_error-IsAnswered 502 v k
      go (err f, v) k e = cc

  failure-IsAnswered :
      (f : Failure) (w : World)
      → Began w ⊎ Unsent w
      → (answer_failure env f w).0 ≡ ok tt
      → IsAnswered (answer_failure env f w).1
  unfolding answer_failure
  failure-IsAnswered too_large w h e = safe_error-IsAnswered 413 w h
  failure-IsAnswered (stream status n) w h e = failed-IsAnswered status n before_output w h e
  failure-IsAnswered (client_stream status n) w h e = failed-IsAnswered none 0 at_request w h e
  failure-IsAnswered proxy_error w h e = failed-IsAnswered none 0 at_request w h e
  failure-IsAnswered session_error w h e = failed-IsAnswered none 0 at_request w h e
  failure-IsAnswered os_error w h e = failed-IsAnswered none 0 at_request w h e
  failure-IsAnswered value_error w h e = cc

  -- A request for which nothing was sent yet, and whose handling does not raise, gets one answer:
  -- the upstream's reply is begun and no error reply is sent, or an error reply is sent and no
  -- other is begun.
  pub handle-IsAnswered :
      (w : World)
      → (w.response_started ≡ false)
      → (w.error_sent ≡ none)
      → (handle env w).0 ≡ ok tt
      → ((handle env w).1.response_started ≡ true) × ((handle env w).1.error_sent ≡ none)
        ⊎ ((handle env w).1.response_started ≡ false)
          × ((status : ℕ) × ((handle env w).1.error_sent ≡ some status))
  unfolding handle Handler.answered ◌>>=◌
  handle-IsAnswered w s n h = go (attempt env w) (attempt-Ends.at w (ground (arith, s, n))) h
    where
      parts :
          (v : World)
          → IsAnswered v
          → (v.response_started ≡ true) × (v.error_sent ≡ none)
            ⊎ (v.response_started ≡ false) × ((status : ℕ) × (v.error_sent ≡ some status))
      parts v (inl b) = inl (ap (λ x. x.0) b, ap (λ x. x.1) b)
      parts v (inr (k, b)) = inr (ap (λ x. x.0) b, (k, ap (λ x. x.1) b))

      go :
          (x : Result Failure (Unit {0}) × World)
          → Began x.1 ⊎ (Unsent x.1 × ((e : Failure) × (x.0 ≡ err e)))
          → (Handler.answered env x.0 x.1).0 ≡ ok tt
          → (((Handler.answered env x.0 x.1).1.response_started ≡ true)
              × ((Handler.answered env x.0 x.1).1.error_sent ≡ none))
            ⊎ (((Handler.answered env x.0 x.1).1.response_started ≡ false)
                × ((status : ℕ) × ((Handler.answered env x.0 x.1).1.error_sent ≡ some status)))
      go (ok u, v) (inl b) e = parts v (inl b)
      go (ok u, v) (inr (q, (f, c))) e = cc
      go (err f, v) (inl b) e = parts (answer_failure env f v).1 (failure-IsAnswered f v (inl b) e)
      go (err f, v) (inr (q, c)) e =
          parts (answer_failure env f v).1 (failure-IsAnswered f v (inr q) e)
