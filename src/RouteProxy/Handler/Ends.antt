-- ===== src/RouteProxy/Handler/Ends.antt =====
-- Actions that begin the reply to the client, or raise before anything was sent.
use orichum.Base.{
  ℕ, zero, suc, ◌+◌, String, Bool, true, false, Option, none, some, List, [], ◌∷◌, nat_eq,
  string_eq, if◌then◌else◌, ◌≡◌, refl, ◌∙◌, ◌⊎◌, inl, inr, arith, length, Option-cases,
}
use orichum.Base.Result.{Result, ok, err}
use orichum.RouteSelection.{Route}
use orichum.RouteProxy.World.{
  Failure, too_large, proxy_error, session_error, os_error, value_error, stream, client_stream,
  Read, block, broken, World, Act, pure, continue, ◌>>=◌,
}
use orichum.RouteProxy.Upstream.{Env, trip}
use orichum.RouteProxy.Response.{Prepared, forward, send_prelude, send_response}
use orichum.RouteProxy.Handler.{
  Plan, settle_success, settle_failure, settle_outcome, deliver_response,
}
use orichum.RouteProxy.Handler.Calm.{
  view, Calm, Calm-bind, Calm-pure, Calm-raise, Calm-if, Calm-trip, Calm-clear, Calm-write,
  Calm-fail, Calm-streaming, Calm-complete,
}

abbrev pub Began : World → Type 0
Began w = view w ≡ (true, none)

abbrev pub Unsent : World → Type 0
Unsent w = view w ≡ (false, none)

-- Where nothing was sent, the action begins the reply, or it raises and still nothing was sent.
pub record Ends {A : Type 0} (m : Act A) : Type 0 where
  pub at :
      (w : World)
      → Unsent w
      → Began (m w).1 ⊎ (Unsent (m w).1 × ((e : Failure) × ((m w).0 ≡ err e)))

module _ {A B : Type 0} where
  pub Ends-bind : (m : Act A) (f : A → Act B) → Calm m → ((a : A) → Ends (f a)) → Ends (m >>= f)
  unfolding ◌>>=◌
  Ends-bind m f km kf = record { at = λ w u. go w (m w) (km.same w ∙ u) }
    where
      go :
          (w : World) (x : Result Failure A × World)
          → Unsent x.1
          → Began (continue x.0 f x.1).1
            ⊎ (Unsent (continue x.0 f x.1).1 × ((e : Failure) × ((continue x.0 f x.1).0 ≡ err e)))
      go w (ok a, v) h = (kf a).at v h
      go w (err e, v) h = inr (h, (e, refl))

  -- A reply that has begun stays so.
  pub Ends-then :
      (m : Act A) (f : A → Act B)
      → ((w : World) → Unsent w → Began (m w).1)
      → ((a : A) → Calm (f a))
      → Ends (m >>= f)
  unfolding ◌>>=◌
  Ends-then m f km kf = record { at = λ w u. inl (go (m w) (km w u)) }
    where
      go : (x : Result Failure A × World) → Began x.1 → Began (continue x.0 f x.1).1
      go (ok a, v) h = (kf a).same v ∙ h
      go (err e, v) h = h

Calm-forward :
    (env : Env) (status : ℕ) (remaining : Option ℕ) (n : ℕ) (reads : List Read)
    → Calm (forward status remaining n reads)
unfolding forward
Calm-forward env status none n [] = record { same = λ w. refl }
Calm-forward env status (some zero) n [] = record { same = λ w. refl }
Calm-forward env status (some (suc k)) n [] = record { same = λ w. refl }
Calm-forward env status remaining n (broken ∷ reads) = Calm-raise _
Calm-forward env status none n (block [] ∷ reads) = record { same = λ w. refl }
Calm-forward env status (some zero) n (block [] ∷ reads) = record { same = λ w. refl }
Calm-forward env status (some (suc k)) n (block [] ∷ reads) = record { same = λ w. refl }
Calm-forward env status remaining n (block (b ∷ bs) ∷ reads) =
    let deeper = Calm-forward env status remaining (n + length (b ∷ bs)) reads in
    Calm-bind _ _ (Calm-write env (b ∷ bs)) (λ t. Calm-if t _ _ deeper (Calm-raise _))

Calm-prelude : (env : Env) (status : ℕ) (bs : List ℕ) → Calm (send_prelude status bs)
unfolding send_prelude
Calm-prelude env status [] = Calm-pure _
Calm-prelude env status (b ∷ bs) =
    Calm-bind _ _ (Calm-write env (b ∷ bs)) (λ t. Calm-if t _ _ (Calm-pure _) (Calm-raise _))

module _ (env : Env) where
  pub send_response-Began : (p : Prepared) (w : World) → Unsent w → Began (send_response p w).1
  unfolding send_response ◌>>=◌
  send_response-Began p w u =
      (Calm-bind _ _ (Calm-write env []) (λ t.
          Calm-bind _ _ (Calm-if t _ _ (Calm-prelude env p.status p.prelude) (Calm-raise _))
            (λ n. Calm-forward env p.status p.remaining n p.rest))).same
        (record w { response_started = true })
      ∙ ground arith

  Calm-success :
      (plan : Plan) (r : Prepared) (used : Bool) (n : ℕ) → Calm (settle_success env plan r used n)
  unfolding settle_success
  Calm-success plan r used n = elim (Option-cases plan.primary) [
    | inl e ↦ rw e (Calm-bind _ _ (Calm-pure tt) (λ u. Calm-complete env _ n))
    | inr (m, e) ↦ rw e (
        Calm-bind _ _ (Calm-if _ _ _ (Calm-clear env m) (Calm-pure tt))
          (λ u. Calm-complete env _ n))
  ]

  Calm-failure : (plan : Plan) (used : Bool) (e : Failure) → Calm (settle_failure env plan used e)
  unfolding settle_failure
  Calm-failure plan used (stream status n) =
      Calm-bind _ _ (tripped plan.primary plan.fallback) (λ u. Calm-fail env _ _ _ _)
    where
      tripped :
          (primary : Option String) (fallback : Option Route)
          → Calm (elim primary [
            | none ↦ pure tt
            | some m ↦ elim fallback [
              | none ↦ pure tt
              | some r ↦ (if used then trip env m else pure tt)
            ]
          ])
      tripped none fallback = Calm-pure tt
      tripped (some m) none = Calm-pure tt
      tripped (some m) (some r) = Calm-if used _ _ (Calm-trip env m) (Calm-pure tt)
  Calm-failure plan used (client_stream status n) = Calm-fail env _ _ _ _
  Calm-failure plan used too_large = Calm-raise _
  Calm-failure plan used proxy_error = Calm-raise _
  Calm-failure plan used session_error = Calm-raise _
  Calm-failure plan used os_error = Calm-raise _
  Calm-failure plan used value_error = Calm-raise _

  Calm-outcome :
      (plan : Plan) (r : Prepared) (used : Bool) (o : Result Failure ℕ)
      → Calm (settle_outcome env plan r used o)
  unfolding settle_outcome
  Calm-outcome plan r used (ok n) = Calm-success plan r used n
  Calm-outcome plan r used (err e) = Calm-failure plan used e

  pub deliver-Ends :
      (plan : Plan) (r : Prepared) (used : Bool) → Ends (deliver_response env plan r used)
  unfolding deliver_response
  deliver-Ends plan r used =
      Ends-bind _ _ (Calm-streaming env _)
        (λ u. Ends-then _ _ (λ w q. send_response-Began r w q) (λ o. Calm-outcome plan r used o))
