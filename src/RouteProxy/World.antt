-- ===== src/RouteProxy/World.antt =====
-- What a request's handling reads and changes, and actions on it: code that mutates and may raise.
-- What was written before an exception stays written, so the world comes back beside the error.
use orichum.Base.{ℕ, String, Bool, Option, List, ℤ}
use orichum.Base.Result.{Result, ok, err}
use orichum.RouteSelection.{Route}
use orichum.RouteStatus.{RouteState, Reason, FailureKind, StatusError}
use orichum.RouteStatus
use orichum.Cooldowns.{Cooldowns}
use orichum.RouteProxy.Sse.{Bytes}

-- `RequestTooLarge`, `UpstreamStreamError`, `ClientStreamError`, `RouteProxyError`,
-- `LogicalSessionError`, the errors of sockets and of HTTP, and `ValueError`.
pub data Failure : Type 0 where
  too_large proxy_error session_error os_error value_error : Failure
  stream : Option ℕ → ℕ → Failure
  client_stream : ℕ → ℕ → Failure

-- What one `read1` of a response gives: a block, which is empty at the end, or an exception.
pub data Read : Type 0 where
  block : Bytes → Read
  broken : Read

-- An upstream response: the header `Content-Length` as `int(…, 10)` reads it, the reads of its body,
-- and `response.length` when the body has ended.
pub record Response : Type 0 where
  pub status : ℕ
  pub content_type : String
  pub content_length : Option ℤ
  pub reads : List Read
  pub remaining : Option ℕ

-- What an attempt to reach upstream comes to: no connection, a connection to a service that is not
-- attested, a request that is sent and gets no response, or a response.
pub data Reply : Type 0 where
  refused unowned dropped : Reply
  answered : Response → Reply

pub data Stage : Type 0 where
  before_output after_output at_request : Stage

pub data Cause : Type 0 where
  http_status pre_output_stream : Cause

-- The events of the log, without the identifiers and the duration.
pub data Event : Type 0 where
  retried : Cause → Option String → Option ℕ → Event
  streamed : ℕ → Event
  completed : ℕ → ℕ → Event
  failed_with : FailureKind → Option ℕ → ℕ → Stage → Event

pub record Sent : Type 0 where
  pub body : String
  pub catalog : Bool

pub record World : Type 0 where
  pub cooldowns : Cooldowns
  pub store : RouteStatus.Store
  -- The monotonic clock and the wall clock, by the readings taken so far.
  pub clock : ℕ → ℕ
  pub stamps : ℕ → String
  pub ticks : ℕ
  -- The replies to come, and what was sent upstream.
  pub replies : List Reply
  pub sent : List Sent
  pub invalidations : ℕ
  -- Whether each write to the client to come succeeds, and what the client has received.
  pub writes : List Bool
  pub response_started : Bool
  pub delivered : Bytes
  pub error_sent : Option ℕ
  pub events : List Event
  -- The trace of the request.
  pub session_id : Option String
  pub selected_route : Option Route

abbrev pub Act : Type 0 → Type 0
Act A = World → Result Failure A × World

module _ {A : Type 0} where
  abbrev pub pure : A → Act A
  pure a w = (ok a, w)

  abbrev pub raise : Failure → Act A
  raise e w = (err e, w)

  abbrev pub lift : Result Failure A → Act A
  lift r w = (r, w)

  abbrev pub gets : (World → A) → Act A
  gets f w = (ok (f w), w)

  -- `try: … except: …`: what the action gives, as a value.
  abbrev pub catch : Act A → Act (Result Failure A)
  catch m w = let (r, w') = m w in (ok r, w')

abbrev pub modify : (World → World) → Act (Unit {0})
modify f w = (ok tt, f w)

module _ {A B : Type 0} where
  abbrev pub continue : Result Failure A → (A → Act B) → World → Result Failure B × World
  continue (ok a) f w = f a w
  continue (err e) f w = (err e, w)

  infixl 5 ◌>>=◌ ◌>>◌
  unfoldable pub ◌>>=◌ : Act A → (A → Act B) → Act B
  ◌>>=◌ m f w = let (r, w') = m w in continue r f w'

  abbrev pub ◌>>◌ : Act A → Act B → Act B
  m >> n = m >>= λ _. n
