-- ===== src/RouteStatus/Bounds.antt =====
-- What the store keeps: at most `max_entries` sessions, each once, the latest selected last.
use orichum.Base.{
  ℕ, zero, suc, ◌+◌, ◌-◌, ◌≤◌, ◌<◌, String, true, ◌≡◌, ◌⊎◌, inl, inr, refl, ◌≢◌, ap, ◌∙◌, none,
  some, [], ◌∷◌, ◌++◌, leb, ◌==◌, string_eq, length, length-append, drop, Bool-cases, Option-cases,
  arith, if◌then◌else◌,
}
use orichum.Base.Dict.{
  Dict, lookup, insert, erase, NodupKeys, lookup-insert, lookup-erase, erase-NodupKeys,
}
use orichum.Base.Result.{ok}
use orichum.RouteSelection.{Route}
use orichum.RouteStatus.{
  RouteState, Reason, RouteStatus, Store, validate_ids, move_to_end, trim, selected, select, get,
  is_session_id,
}

abbrev Entries : Type 0
Entries = Dict String RouteStatus

erase-insert : (k : String) (v : RouteStatus) (d : Entries) → erase k (insert k v d) ≡ erase k d
unfolding erase insert
erase-insert k v [] = ground arith
erase-insert k v ((j, w) ∷ d) = ground (arith, erase-insert k v d)

-- The entries after a selection, before the bound is enforced: the session's entry stands last.
moved :
    (k : String) (v : RouteStatus) (d : Entries)
    → move_to_end k (insert k v d) ≡ erase k d ++ (k, v) ∷ []
unfolding move_to_end
moved k v d = ground (arith, lookup-insert k k v d, erase-insert k v d)

-- `trim` drops from the front what is over the bound.
trim-eq-drop : (bound : ℕ) (d : Entries) → trim bound d ≡ drop (length d - bound) d
unfolding trim
trim-eq-drop bound [] = let none_over : 0 - bound ≡ 0 = omega arith in rw none_over
trim-eq-drop bound (x ∷ d) = elim (Bool-cases (leb (suc (length d)) bound)) [
  | inl le ↦ let fits : suc (length d) - bound ≡ 0 = ground (arith, le) in rw (le, fits)
  | inr gt ↦
      let over : suc (length d) - bound ≡ suc (length d - bound) = ground (arith, gt) in
      rw (gt, over) (trim-eq-drop bound d)
]

length-erase : (k : String) (d : Entries) → length (erase k d) ≤ length d
unfolding erase
length-erase k [] = omega arith
length-erase k (x ∷ d) = ground (arith, length-erase k d)

length-erase_lt :
    (k : String) (v : RouteStatus) (d : Entries)
    → lookup k d ≡ some v
    → length (erase k d) < length d
unfolding erase lookup
length-erase_lt k v [] h = cc
length-erase_lt k v (x ∷ d) h = ground (arith, length-erase_lt k v d, length-erase k d)

pub record IsStore (s : Store) : Type 0 where
  pub positive : 0 < s.max_entries
  pub bounded : length s.entries ≤ s.max_entries
  pub nodup : NodupKeys s.entries

absent : (k : String) (d : Entries) → lookup k (erase k d) ≡ none
absent k d = ground (arith, lookup-erase k k d)

lookup-drop : (k : String) (n : ℕ) (d : Entries) → lookup k d ≡ none → lookup k (drop n d) ≡ none
unfolding lookup
lookup-drop k zero d h = h
lookup-drop k (suc n) [] h = h
lookup-drop k (suc n) (x ∷ d) h = lookup-drop k n d (ground arith)

drop-NodupKeys : (n : ℕ) (d : Entries) → NodupKeys d → NodupKeys (drop n d)
drop-NodupKeys zero d h = h
drop-NodupKeys (suc n) [] h = h
drop-NodupKeys (suc n) (x ∷ d) h = drop-NodupKeys n d h.1

lookup-snoc :
    (j k : String) (v : RouteStatus) (d : Entries)
    → lookup j (d ++ (k, v) ∷ [])
      ≡ elim (lookup j d) [ none ↦ (if j == k then some v else none) | some w ↦ some w ]
unfolding lookup
lookup-snoc j k v [] = refl
lookup-snoc j k v (x ∷ d) = ground (arith, lookup-snoc j k v d)

snoc-NodupKeys :
    (k : String) (v : RouteStatus) (d : Entries)
    → NodupKeys d
    → lookup k d ≡ none
    → NodupKeys (d ++ (k, v) ∷ [])
unfolding lookup
snoc-NodupKeys k v [] h a = (refl, tt)
snoc-NodupKeys k v ((j, w) ∷ d) h a = ground (arith, snoc-NodupKeys k v d h.1, lookup-snoc j k v d)

length-drop : (n : ℕ) (d : Entries) → length (drop n d) ≡ length d - n
length-drop zero d = omega arith
length-drop (suc n) [] = omega arith
length-drop (suc n) (x ∷ d) = omega (arith, length-drop n d)

drop-snoc :
    (n : ℕ) (d : Entries) (x : String × RouteStatus)
    → n ≤ length d
    → drop n (d ++ x ∷ []) ≡ drop n d ++ x ∷ []
drop-snoc zero d x h = refl
drop-snoc (suc n) [] x h = absurd (omega arith)
drop-snoc (suc n) (y ∷ d) x h = drop-snoc n d x (omega arith)

module _ (session_id request_id : String) (route : Route) (route_state : RouteState)
    (reason : Reason) (now : String) (s t : Store)
    (made : select session_id request_id route route_state reason now s ≡ ok t) where
  abbrev status : RouteStatus
  status = selected session_id request_id route route_state reason now

  -- A selection in a store with a positive bound puts the session's new status last. The other
  -- sessions keep their order, and the oldest go, as many as are over the bound.
  pub select-entries :
      0 < s.max_entries
      → (t.max_entries ≡ s.max_entries)
        × (t.entries
            ≡ drop
                (length (erase session_id s.entries) + 1 - s.max_entries)
                (erase session_id s.entries)
              ++ (session_id, status) ∷ [])
  unfolding select
  select-entries h =
      let kept = erase session_id s.entries in
      let trimmed : t.entries
          ≡ trim s.max_entries (move_to_end session_id (insert session_id status s.entries)) =
        ground arith in
      let sizes : length (kept ++ (session_id, status) ∷ []) ≡ length kept + 1 =
        omega (arith, length-append kept ((session_id, status) ∷ [])) in
      (
        ground arith,
        trimmed
            ∙ ap (trim s.max_entries) (moved session_id status s.entries)
            ∙ trim-eq-drop s.max_entries (kept ++ (session_id, status) ∷ [])
            ∙ rw sizes (drop-snoc _ kept (session_id, status) (omega arith)),
      )

  -- Selection keeps the bound, and each session once.
  pub select-IsStore : IsStore s → IsStore t
  select-IsStore inv =
      let (bound, e) = select-entries inv.positive in
      let kept = erase session_id s.entries in
      let gone = length kept + 1 - s.max_entries in
      record {
        positive = omega (arith, inv.positive);
        bounded =
            rw (bound, e)
              (omega (
                arith,
                inv.positive,
                length-append (drop gone kept) ((session_id, status) ∷ []),
                length-drop gone kept,
              ));
        nodup = rw e (
            snoc-NodupKeys session_id status (drop gone kept)
              (drop-NodupKeys gone kept (erase-NodupKeys session_id s.entries inv.nodup))
              (lookup-drop session_id gone kept (absent session_id s.entries)));
      }

  session_ok : is_session_id session_id ≡ true
  unfolding select validate_ids
  session_ok = ground arith

  fits :
      IsStore s
      → (length s.entries < s.max_entries) ⊎ (lookup session_id s.entries ≢ none)
      → length (erase session_id s.entries) + 1 - s.max_entries ≡ 0
  fits inv (inl room) = omega (arith, length-erase session_id s.entries)
  fits inv (inr known) = elim (Option-cases (lookup session_id s.entries)) [
    | inl e ↦ absurd (known e)
    | inr (v, e) ↦ omega (arith, inv.bounded, length-erase_lt session_id v s.entries e)
  ]

  -- In a store with a positive bound, the session just selected is found, with a pending status.
  pub get-select : 0 < s.max_entries → get session_id t ≡ ok (some status)
  unfolding get
  get-select h =
      let (bound, e) = select-entries h in
      let kept = erase session_id s.entries in
      let gone = length kept + 1 - s.max_entries in
      ground (
        arith,
        e,
        session_ok,
        lookup-snoc session_id session_id status (drop gone kept),
        lookup-drop session_id gone kept (absent session_id s.entries),
      )

  -- Another session is found as before, unless it was among the oldest that had to go; while the
  -- store has room, or the session was there already, nobody goes.
  pub get-select_ne :
      (j : String)
      → IsStore s
      → j ≢ session_id
      → (length s.entries < s.max_entries) ⊎ (lookup session_id s.entries ≢ none)
      → lookup j t.entries ≡ lookup j s.entries
  get-select_ne j inv other room =
      let (bound, e) = select-entries inv.positive in
      let kept = erase session_id s.entries in
      let none_over : length kept + 1 - s.max_entries ≡ 0 = fits inv room in
      rw (e, none_over)
        (ground (arith, lookup-snoc j session_id status kept, lookup-erase j session_id s.entries))
