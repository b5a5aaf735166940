-- ===== src/RouteStatus/Updates.antt =====
-- Updates reach only the entry of the request that made it.
use orichum.Base.{
  ℕ, ◌<◌, String, ◌&&◌, ◌≡◌, ◌≢◌, inl, inr, refl, none, some, [], ◌∷◌, ◌==◌, string_eq, length,
  Bool-cases, Option-cases, arith, if◌then◌else◌,
}
use orichum.Base.Dict.{Dict, lookup, insert, keys, lookup-insert, insert-NodupKeys}
use orichum.Base.Result.{ok}
use orichum.RouteSelection.{Route}
use orichum.RouteStatus.{
  RouteState, Reason, RouteStatus, Store, selected, select, update, get, on_complete, complete,
}
use orichum.RouteStatus.Bounds.{IsStore, get-select}

keys-insert :
    (k : String) (v w : RouteStatus) (d : Dict String RouteStatus)
    → lookup k d ≡ some w
    → keys (insert k v d) ≡ keys d
unfolding insert lookup
keys-insert k v w [] h = cc
keys-insert k v w ((j, x) ∷ d) h = ground (arith, keys-insert k v w d)

length-insert_old :
    (k : String) (v w : RouteStatus) (d : Dict String RouteStatus)
    → lookup k d ≡ some w
    → length (insert k v d) ≡ length d
unfolding insert lookup
length-insert_old k v w [] h = cc
length-insert_old k v w ((j, x) ∷ d) h = ground (arith, length-insert_old k v w d)

module _ (session_id request_id : String) (changes : RouteStatus → RouteStatus) (now : String)
    (s t : Store) (made : update session_id request_id changes now s ≡ ok t) where
  -- An update changes the session's entry if it is the request's own, and nothing else.
  pub lookup-update :
      (j : String)
      → lookup j t.entries ≡ elim (lookup j s.entries) [
        | none ↦ none
        | some r ↦
            if j == session_id && r.request_id == request_id
            then some (record (changes r) { updated_at = now })
            else some r
      ]
  unfolding update
  lookup-update j = elim (Option-cases (lookup session_id s.entries)) [
    | inl e ↦ ground (arith, e)
    | inr (r, e) ↦
        ground
          (arith, e, lookup-insert j session_id (record (changes r) { updated_at = now }) s.entries)
  ]

  -- It keeps the sessions, their order and the bound.
  pub update-IsStore : IsStore s → IsStore t × (keys t.entries ≡ keys s.entries)
  unfolding update
  update-IsStore inv = elim (Option-cases (lookup session_id s.entries)) [
    | inl e ↦ let same : t ≡ s = ground (arith, e) in rw same (inv, refl)
    | inr (r, e) ↦
        let v : RouteStatus = record (changes r) { updated_at = now } in
        elim (Bool-cases (r.request_id == request_id)) [
          | inr f ↦ let same : t ≡ s = ground (arith, e, f) in rw same (inv, refl)
          | inl f ↦
              let new : t ≡ record s { entries = insert session_id v s.entries } =
                ground (arith, e, f) in
              rw new (
                record {
                  positive = inv.positive;
                  bounded =
                      omega (arith, inv.bounded, length-insert_old session_id v r s.entries e);
                  nodup = insert-NodupKeys session_id v s.entries inv.nodup;
                },
                keys-insert session_id v r s.entries e,
              )
        ]
  ]

-- In a store with a positive bound, a request that another has replaced cannot change the status
-- of the session any more: an update by it leaves what the other selected.
pub update-stale :
    (session_id old new : String) (route : Route) (route_state : RouteState) (reason : Reason)
    (at now : String) (changes : RouteStatus → RouteStatus) (s t u : Store)
    → 0 < s.max_entries
    → old ≢ new
    → select session_id new route route_state reason at s ≡ ok t
    → update session_id old changes now t ≡ ok u
    → get session_id u ≡ ok (some (selected session_id new route route_state reason at))
unfolding get selected
update-stale session_id old new route route_state reason at now changes s t u pos ne made late =
    ground (
      arith,
      get-select session_id new route route_state reason at s t made pos,
      lookup-update session_id old changes now t u late session_id,
    )

-- In a store with a positive bound, the request that selected the route last can complete it: the
-- status then has the route, the HTTP status and the bytes.
pub get-complete :
    (session_id request_id : String) (route : Route) (route_state : RouteState) (reason : Reason)
    (at now : String) (http_status bytes : ℕ) (s t u : Store)
    → 0 < s.max_entries
    → select session_id request_id route route_state reason at s ≡ ok t
    → update session_id request_id (on_complete http_status bytes) now t ≡ ok u
    → get session_id u
      ≡ ok (
          some (record (selected session_id request_id route route_state reason at) {
            response_state = complete;
            last_http_status = some http_status;
            bytes_forwarded = bytes;
            failure_kind = none;
            updated_at = now;
          }))
unfolding get on_complete selected
get-complete session_id request_id route route_state reason at now http_status bytes s t u pos made
      done =
    ground (
      arith,
      get-select session_id request_id route route_state reason at s t made pos,
      lookup-update session_id request_id (on_complete http_status bytes) now t u done session_id,
    )
