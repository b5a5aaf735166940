-- ===== src/Examples/Statuses.antt =====
-- The route status store's and the cooldowns' theorems at a few sessions and calls.
use orichum.Base.{
  ◌+◌, ◌-◌, String, true, false, ◌≡◌, ◌≢◌, refl, some, List, [], ◌∷◌, ◌++◌, string_eq, nat_eq,
  option_eq, ◌==◌, ==_iff, length, drop, ltb, arith,
}
use orichum.Base.Dict.{lookup, insert, erase}
use orichum.Base.Result.{ok}
use orichum.Base.Text.{matches_hex16, strip_prefix, every, is_hex, size}
use orichum.RouteSelection.{Route}
use orichum.RouteStatus.{
  RouteStatus, Store, RouteState, by_primary, select, selected, update, get, trim, move_to_end,
  validate_ids, is_session_id, is_request_id, on_complete,
}
use orichum.RouteStatus.Bounds.{IsStore, select-entries}
use orichum.RouteStatus.Updates.{update-stale}
use orichum.Cooldowns.{active}
use orichum.Cooldowns.Laws.{
  Call, ask, tripped, run, deadline, Ordered, done, asked, trips, active_iff_deadline,
}
use orichum.Examples.{route_of}

abbrev session : String
session = "oc-s-0123456789abcdef"

abbrev other : String
other = "oc-s-fedcba9876543210"

abbrev first_request : String
first_request = "oc-rq-0123456789abcdef"

abbrev second_request : String
second_request = "oc-rq-fedcba9876543210"

abbrev route : Route
route = route_of "oc-a-0123456789abcdef" "oc-r-0123456789abcdef/opus-4" 100

abbrev status_of : String → String → RouteStatus
status_of id request = selected id request route RouteState.primary by_primary "now"

-- One other session stands in a store for two.
abbrev store : Store
store = record { max_entries = 2; entries = (other, status_of other first_request) ∷ [] }

abbrev after : Store
after = record {
  max_entries = 2;
  entries =
      (other, status_of other first_request) ∷ (session, status_of session first_request) ∷ [];
}

store-IsStore : IsStore store
unfolding lookup
store-IsStore = record { positive = omega arith; bounded = omega arith; nodup = (refl, tt) }

select_ok : select session first_request route RouteState.primary by_primary "now" store ≡ ok after
unfolding select selected trim move_to_end validate_ids is_session_id is_request_id matches_hex16
    strip_prefix every is_hex size lookup insert erase string_eq nat_eq
select_ok = refl

select-entries_example :
    (after.max_entries ≡ store.max_entries)
    × (after.entries
        ≡ drop
            (length (erase session store.entries) + 1 - store.max_entries)
            (erase session store.entries)
          ++ (session, status_of session first_request) ∷ [])
select-entries_example =
    select-entries session first_request route RouteState.primary by_primary "now" store after
      select_ok (omega arith)

other_ne : other ≢ session
unfolding string_eq
other_ne e =
    let same : (other == session) ≡ true = (==_iff other session).1 e in
    let differ : (other == session) ≡ false = refl in cc

abbrev completed : Store
completed = record after {
  entries =
      (other, status_of other first_request)
      ∷ (
        session,
        record (on_complete 200 42 (status_of session first_request)) { updated_at = "later" },
      )
      ∷ [];
}

complete_ok : update session first_request (on_complete 200 42) "later" after ≡ ok completed
unfolding update selected validate_ids is_session_id is_request_id matches_hex16 strip_prefix every
    is_hex size lookup insert on_complete string_eq nat_eq
complete_ok = refl

late_ok : update session second_request (on_complete 200 42) "later" after ≡ ok after
unfolding update selected validate_ids is_session_id is_request_id matches_hex16 strip_prefix every
    is_hex size lookup insert string_eq nat_eq
late_ok = refl

after-IsStore : IsStore after
unfolding lookup string_eq
after-IsStore = record { positive = omega arith; bounded = omega arith; nodup = (refl, (refl, tt)) }

requests_ne : second_request ≢ first_request
unfolding string_eq
requests_ne e =
    let same : (second_request == first_request) ≡ true =
      (==_iff second_request first_request).1 e in
    let differ : (second_request == first_request) ≡ false = refl in cc

update-stale_example : get session after ≡ ok (some (status_of session first_request))
update-stale_example =
    update-stale session second_request first_request route RouteState.primary by_primary "now"
      "later" (on_complete 200 42) store after after (omega arith) requests_ne select_ok late_ok

abbrev calls : List Call
calls = tripped "opus" 5 ∷ ask "opus" 9 ∷ []

calls-Ordered : Ordered 12 0 calls
calls-Ordered = trips "opus" 5 (omega arith) (asked "opus" 9 (omega arith) (done 9 (omega arith)))

active_iff_deadline_example :
    (active "opus" 12 (run (record { seconds = 10; until = [] }) calls)).0
    ≡ ltb 12 (deadline 10 "opus" 0 calls)
active_iff_deadline_example = active_iff_deadline 10 12 "opus" calls calls-Ordered
