-- ===== src/RouteProxy/Handler/Calm.antt =====
-- Actions that leave the reply to the client alone.
use orichum.Base.{
  ℕ, String, Bool, true, false, Option, none, some, List, nat_eq, string_eq, if◌then◌else◌, ◌≡◌,
  refl, ◌∙◌, arith,
}
use orichum.Base.Result.{Result, ok, err}
use orichum.RouteSelection.{Route}
use orichum.RouteStatus.{RouteState, Reason, RouteStatus, FailureKind}
use orichum.RouteProxy.World.{
  Failure, Reply, refused, unowned, dropped, answered, Stage, Event, World, Act, pure, raise, lift,
  continue, ◌>>=◌,
}
use orichum.RouteProxy.Upstream.{
  Env, from_status, trace_select, emit, trace_update, trace_streaming, trace_complete, trace_fail,
  trip, clear, cooling, fail_upstream, send_upstream, next_reply, exchange, upstream,
  candidate_upstream,
}
use orichum.RouteProxy.Response.{write}
use orichum.RouteProxy.Handler.{required}

-- Whether the reply has begun, and the error reply that was sent.
abbrev pub view : World → Bool × Option ℕ
view w = (w.response_started, w.error_sent)

-- The action leaves the reply alone.
pub record Calm {A : Type 0} (m : Act A) : Type 0 where
  pub same : (w : World) → view (m w).1 ≡ view w

module _ {A B : Type 0} where
  pub Calm-bind : (m : Act A) (f : A → Act B) → Calm m → ((a : A) → Calm (f a)) → Calm (m >>= f)
  unfolding ◌>>=◌
  Calm-bind m f km kf = record { same = λ w. go w (m w) (km.same w) }
    where
      go :
          (w : World) (x : Result Failure A × World)
          → view x.1 ≡ view w
          → view (continue x.0 f x.1).1 ≡ view w
      go w (ok a, v) h = (kf a).same v ∙ h
      go w (err e, v) h = h

module _ {A : Type 0} where
  pub Calm-pure : (a : A) → Calm (pure a)
  Calm-pure a = record { same = λ w. refl }

  pub Calm-raise : (e : Failure) → Calm (raise {A = A} e)
  Calm-raise e = record { same = λ w. refl }

  pub Calm-lift : (r : Result Failure A) → Calm (lift r)
  Calm-lift r = record { same = λ w. refl }

  pub Calm-required : (e : Failure) (o : Option A) → Calm (required e o)
  unfolding required
  Calm-required e none = Calm-raise e
  Calm-required e (some a) = Calm-pure a

  pub Calm-if : (t : Bool) (m n : Act A) → Calm m → Calm n → Calm (if t then m else n)
  Calm-if true m n h k = h
  Calm-if false m n h k = k

module _ (env : Env) where
  pub Calm-select :
      (route : Route) (state : RouteState) (reason : Reason)
      → Calm (trace_select env route state reason)
  unfolding trace_select from_status
  Calm-select route state reason = record { same = λ w. ground arith }

  pub Calm-update : (changes : RouteStatus → RouteStatus) → Calm (trace_update env changes)
  unfolding trace_update from_status
  Calm-update changes = record { same = λ w. ground arith }

  pub Calm-emit : (e : Event) → Calm (emit env e)
  unfolding emit
  Calm-emit e = record { same = λ w. refl }

  pub Calm-trip : (m : String) → Calm (trip env m)
  unfolding trip
  Calm-trip m = record { same = λ w. refl }

  pub Calm-clear : (m : String) → Calm (clear env m)
  unfolding clear
  Calm-clear m = record { same = λ w. refl }

  pub Calm-cooling : (m : String) → Calm (cooling env m)
  unfolding cooling
  Calm-cooling m = record { same = λ w. refl }

  pub Calm-exchange :
      (body : String) (catalog : Bool) (r : Reply) → Calm (exchange env body catalog r)
  unfolding exchange fail_upstream send_upstream
  Calm-exchange body catalog refused = record { same = λ w. refl }
  Calm-exchange body catalog unowned = record { same = λ w. refl }
  Calm-exchange body catalog dropped = record { same = λ w. ground arith }
  Calm-exchange body catalog (answered r) = record { same = λ w. ground arith }

  pub Calm-next : (w : World) → view (next_reply env w).1 ≡ view w
  unfolding next_reply
  Calm-next w = ground arith

  pub Calm-upstream : (body : String) (catalog : Bool) → Calm (upstream env body catalog)
  unfolding upstream
  Calm-upstream body catalog = record {
    same = λ w.
        (Calm-exchange body catalog (next_reply env w).0).same (next_reply env w).1 ∙ Calm-next w;
  }

  pub Calm-candidate :
      (body : String) (resident : List String) → Calm (candidate_upstream env body resident)
  unfolding candidate_upstream
  Calm-candidate body resident =
      Calm-bind _ _ (Calm-upstream _ false)
        (λ r. Calm-if _ _ _ (Calm-upstream _ false) (Calm-pure r))

  pub Calm-write : (bs : List ℕ) → Calm (write bs)
  unfolding write
  Calm-write bs = record { same = λ w. ground arith }

  pub Calm-fail :
      (kind : FailureKind) (status : Option ℕ) (n : ℕ) (stage : Stage)
      → Calm (trace_fail env kind status n stage)
  unfolding trace_fail
  Calm-fail kind status n stage = Calm-bind _ _ (Calm-update _) (λ u. Calm-emit _)

  pub Calm-streaming : (n : ℕ) → Calm (trace_streaming env n)
  unfolding trace_streaming
  Calm-streaming n = Calm-bind _ _ (Calm-update _) (λ u. Calm-emit _)

  pub Calm-complete : (n k : ℕ) → Calm (trace_complete env n k)
  unfolding trace_complete
  Calm-complete n k = Calm-bind _ _ (Calm-update _) (λ u. Calm-emit _)
