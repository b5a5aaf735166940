-- ===== src/Examples/Handler.antt =====
-- The handler's theorems at a request whose primary account answers 503.
use orichum.Base.{
  ◌≡◌, refl, ◌⊎◌, string_eq, nat_eq, ℕ, ◌+◌, ◌≤◌, String, true, false, none, some, [], ◌∷◌, length,
  pos,
}
use orichum.Base.Result.{ok}
use orichum.Json.{str, object}
use orichum.RouteProxy.Policy.{Session}
use orichum.RouteProxy.World.{Response, block, answered, World, ◌>>=◌}
use orichum.RouteProxy.Upstream.{Env, trace_fail, trace_update, emit}
use orichum.RouteProxy.Handler
use orichum.RouteProxy.Handler.{handle, attempt, is_catalog, required, answer_failure, safe_error}
use orichum.RouteProxy.Handler.Answers.{handle-IsAnswered}
use orichum.RouteProxy.Paths.{upstream_path, partition, normalized}
use orichum.Base.Text.{strip_prefix}
use orichum.RouteProxy.Handler.Bound.{handle-sent_le}
use orichum.Examples.{route_of}

abbrev model : String
model = "oc-r-0123456789abcdef/opus-4"

abbrev session : Session
session = record {
  bindings =
      record {
        primary = route_of "oc-a-0123456789abcdef" model 100;
        fallbacks = route_of "oc-a-fedcba9876543210" "oc-r-fedcba9876543210/opus-4" 50 ∷ [];
      }
      ∷ [];
  leanctx_profile = "lean";
}

abbrev env : Env
env = record {
  json = record { loads = λ b. some (object (("model", str b) ∷ [])); dumps = λ j. "changed" };
  command = "POST";
  path = "/proxy/gpt/v1/messages";
  body = ok model;
  session_header = some "oc-s-0123456789abcdef";
  request_id = "oc-rq-0123456789abcdef";
  load_session = λ id. ok session;
  url_path = λ u. u;
  attested = true;
}

abbrev reply : ℕ → Response
reply status = record {
  status = status;
  content_type = "application/json";
  content_length = some (pos 2);
  reads = block (b'{' ∷ b'}' ∷ []) ∷ [];
  remaining = some 0;
}

abbrev world : World
world = record {
  cooldowns = record { seconds = 60; until = [] };
  store = record { max_entries = 4; entries = [] };
  clock = λ n. n;
  stamps = λ n. "now";
  ticks = 0;
  replies = answered (reply 503) ∷ answered (reply 200) ∷ [];
  sent = [];
  invalidations = 0;
  writes = [];
  response_started = false;
  delivered = [];
  error_sent = none;
  events = [];
  session_id = none;
  selected_route = none;
}

handle-sent_le_example : length (handle env world).1.sent ≤ length world.sent + 4
handle-sent_le_example = handle-sent_le env world

-- A request under another profile's prefix.
abbrev stray : Env
stray = record env { command = "GET"; path = "/proxy/x" }

stray_answered : (handle stray world).0 ≡ ok tt
unfolding handle Handler.answered attempt is_catalog required upstream_path partition normalized
    strip_prefix answer_failure trace_fail trace_update emit safe_error ◌>>=◌ string_eq nat_eq
stray_answered = refl

handle-IsAnswered_example :
    ((handle stray world).1.response_started ≡ true) × ((handle stray world).1.error_sent ≡ none)
    ⊎ ((handle stray world).1.response_started ≡ false)
      × ((status : ℕ) × ((handle stray world).1.error_sent ≡ some status))
handle-IsAnswered_example = handle-IsAnswered stray world refl refl stray_answered
