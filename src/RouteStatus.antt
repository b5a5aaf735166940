-- ===== src/RouteStatus.antt =====
-- integrations/common/route_status.py: the last route of each session, for at most `max_entries`
-- sessions. The wall clock's text is an argument of the operations that read it.
pub mod Bounds
pub mod Updates
use orichum.Base.{
  ℕ, zero, suc, ◌+◌, ◌-◌, String, Bool, true, false, not, ◌&&◌, Option, none, some, List, [], ◌∷◌,
  ◌++◌, leb, ◌==◌, string_eq, length, if◌then◌else◌,
}
use orichum.Base.Dict.{Dict, lookup, insert, erase}
use orichum.Base.Result.{Result, ok, err, ◌>>=◌, ◌>>◌, guard}
use orichum.Base.Text.{matches_hex16}
use orichum.RouteSelection.{Route}

pub data RouteState : Type 0 where
  primary fallback : RouteState

pub data Reason : Type 0 where
  by_primary retry cooldown : Reason

pub data ResponseState : Type 0 where
  pending streaming complete failed : ResponseState

pub data FailureKind : Type 0 where
  upstream client : FailureKind

pub record RouteStatus : Type 0 where
  pub session_id : String
  pub request_id : String
  pub account_id : String
  pub provider : String
  pub family : String
  pub logical_model : String
  pub route_state : RouteState
  pub reason : Reason
  pub response_state : ResponseState
  pub last_http_status : Option ℕ
  pub bytes_forwarded : ℕ
  pub failure_kind : Option FailureKind
  pub updated_at : String

pub data StatusError : Type 0 where
  bad_session bad_request bad_bound : StatusError

-- `_entries`, the oldest first, and the bound.
pub record Store : Type 0 where
  pub max_entries : ℕ
  pub entries : Dict String RouteStatus

unfoldable pub new_store : ℕ → Result StatusError Store
new_store zero = err bad_bound
new_store (suc n) = ok (record { max_entries = suc n; entries = [] })

unfoldable pub is_session_id : String → Bool
is_session_id = matches_hex16 "oc-s-"

unfoldable pub is_request_id : String → Bool
is_request_id = matches_hex16 "oc-rq-"

unfoldable pub validate_ids : String → String → Result StatusError (Unit {0})
validate_ids session_id request_id = do
  guard (is_session_id session_id) bad_session
  guard (is_request_id request_id) bad_request

-- `OrderedDict.move_to_end(k)`
unfoldable pub move_to_end : String → Dict String RouteStatus → Dict String RouteStatus
move_to_end k d = elim (lookup k d) [ none ↦ d | some v ↦ erase k d ++ (k, v) ∷ [] ]

-- `while len(entries) > bound: entries.popitem(last=False)`
unfoldable pub trim : ℕ → Dict String RouteStatus → Dict String RouteStatus
trim bound [] = []
trim bound (x ∷ d) = let rest = trim bound d in if leb (length (x ∷ d)) bound then x ∷ d else rest

unfoldable pub selected : String → String → Route → RouteState → Reason → String → RouteStatus
selected session_id request_id route route_state reason now = record {
  session_id = session_id;
  request_id = request_id;
  account_id = route.account_id;
  provider = route.provider;
  family = route.family;
  logical_model = route.logical_model;
  route_state = route_state;
  reason = reason;
  response_state = pending;
  last_http_status = none;
  bytes_forwarded = 0;
  failure_kind = none;
  updated_at = now;
}

unfoldable pub select :
    String → String → Route → RouteState → Reason → String → Store → Result StatusError Store
select session_id request_id route route_state reason now s = do
  validate_ids session_id request_id
  let status = selected session_id request_id route route_state reason now
  ok (record s {
    entries = trim s.max_entries (move_to_end session_id (insert session_id status s.entries));
  })

-- `changes` are the fields that the caller sets; `updated_at` is set in each case.
unfoldable pub update :
    String → String → (RouteStatus → RouteStatus) → String → Store → Result StatusError Store
update session_id request_id changes now s = do
  validate_ids session_id request_id
  ok (elim (lookup session_id s.entries) [
    | none ↦ s
    | some status ↦
        if status.request_id == request_id
        then (record s {
          entries = insert session_id (record (changes status) { updated_at = now }) s.entries;
        })
        else s
  ])

unfoldable pub on_streaming : ℕ → RouteStatus → RouteStatus
on_streaming http_status r = record r {
  response_state = streaming;
  last_http_status = some http_status;
}

unfoldable pub on_complete : ℕ → ℕ → RouteStatus → RouteStatus
on_complete http_status bytes_forwarded r = record r {
  response_state = complete;
  last_http_status = some http_status;
  bytes_forwarded = bytes_forwarded;
  failure_kind = none;
}

unfoldable pub on_fail : Option ℕ → ℕ → FailureKind → RouteStatus → RouteStatus
on_fail http_status bytes_forwarded failure_kind r = record r {
  response_state = failed;
  last_http_status = http_status;
  bytes_forwarded = bytes_forwarded;
  failure_kind = some failure_kind;
}

unfoldable pub get : String → Store → Result StatusError (Option RouteStatus)
get session_id s = do guard (is_session_id session_id) bad_session; ok (lookup session_id s.entries)
