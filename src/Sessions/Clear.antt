-- ===== src/Sessions/Clear.antt =====
-- orichum_sessions.py: `clear_logical_sessions`. A loop that follows parents takes fuel, one unit for
-- each turn; `none` is the result where the fuel does not suffice.
use orichum.Base.{
  ℕ, zero, suc, ◌+◌, String, Bool, true, false, not, Option, none, some, List, [], ◌∷◌, map, leb,
  string_eq, contains, if◌then◌else◌, select, length,
}
use orichum.Base.Dict.{Dict, keys, lookup, has_key, erase}
use orichum.Base.Result.{ok, err, ◌>>=◌}
use orichum.Base.Sort.{sorted}
use orichum.Json.{Json}
use orichum.Sessions.{Checked, cyclic}
use orichum.Sessions.Document.{LogicalSession, Formats}
use orichum.Sessions.Store.{Published, list_logical_sessions}

abbrev pub ById : Type 0
ById = Dict String LogicalSession

abbrev pub by_id : List LogicalSession → ById
by_id sessions = map (λ s. (s.id, s)) sessions

-- `by_id[i].parent_id`, where that is in `by_id` too.
unfoldable pub parent_in : ById → String → Option String
parent_in d i = elim (lookup i d) [
  | none ↦ none
  | some s ↦ elim s.parent_id [ none ↦ none | some p ↦ if has_key p d then some p else none ]
]

-- `while pending`; the last item of the code's list is the first one here.
unfoldable pub grow : ById → ℕ → List String → List String → Option (List String)
grow d n [] retained = some retained
grow d zero (i ∷ pending) retained = none
grow d (suc n) (i ∷ pending) retained =
    let skip = grow d n pending retained in
    elim (parent_in d i) [
      | none ↦ skip
      | some p ↦
          let add = grow d n (p ∷ pending) (p ∷ retained) in
          if contains retained p then skip else add
    ]

-- `set(active) & set(by_id)`
unfoldable pub known_active : ById → List String → List String
known_active d active = select (contains active) (keys d)

unfoldable pub retained_ids : ById → List String → List String
retained_ids d active =
    elim (grow d (length (keys d) + length (keys d)) (known_active d active)
      (known_active d active)) [ none ↦ [] | some r ↦ r ]

-- The loop of `session_depth`. The table `depth` only saves the repetition.
unfoldable pub depth_from : ById → ℕ → List String → String → Option (Checked ℕ)
depth_from d zero seen i = none
depth_from d (suc n) seen i = elim (parent_in d i) [
  | none ↦ some (ok 0)
  | some p ↦
      let rest = depth_from d n (p ∷ seen) p in
      if contains seen p
      then some (err cyclic)
      else elim rest [ none ↦ none | some (err e) ↦ some (err e) | some (ok k) ↦ some (ok (suc k)) ]
]

unfoldable pub session_depth : ById → String → Checked ℕ
session_depth d i = elim (depth_from d (suc (length (keys d))) (i ∷ []) i) [
  | none ↦ err cyclic
  | some r ↦ r
]

unfoldable pub with_depths : ById → List LogicalSession → Checked (List (ℕ × LogicalSession))
with_depths d [] = ok []
with_depths d (s ∷ ss) = do k ← session_depth d s.id; rest ← with_depths d ss; ok ((k, s) ∷ rest)

-- `sorted(removable, key=session_depth, reverse=True)`
unfoldable pub deepest_first : List (ℕ × LogicalSession) → List (ℕ × LogicalSession)
deepest_first l = sorted (λ a b. leb b.0 a.0) l

unfoldable pub delete_all : List (ℕ × LogicalSession) → Published → Published
delete_all [] p = p
delete_all (e ∷ l) p = delete_all l (erase e.1.id p)

unfoldable pub status : Bool → List String → List String → LogicalSession → String × String
status apply active retained s = (
  s.id,
  if contains active s.id
      then "active-preserved"
      else if contains retained s.id
      then "parent-preserved"
      else if apply
      then "removed"
      else "eligible",
)

unfoldable pub removable_of : List LogicalSession → List String → List LogicalSession
removable_of sessions retained = select (λ s. not (contains retained s.id)) sessions

module _ (formats : Formats) (size : Json → ℕ) (leases : Checked (List String)) where
  unfoldable pub delete_removable :
      Bool → List LogicalSession → List String → Published → Checked Published
  delete_removable false sessions retained p = ok p
  delete_removable true sessions retained p = do
    l ← with_depths (by_id sessions) (removable_of sessions retained)
    ok (delete_all (deepest_first l) p)

  -- `_active_logical_session_ids` is `leases`.
  unfoldable pub clear_logical_sessions :
      Bool → Published → Checked (List (String × String) × Published)
  clear_logical_sessions apply p = do
    sessions ← list_logical_sessions formats size p
    leased ← leases
    let active = known_active (by_id sessions) leased
    let retained = retained_ids (by_id sessions) leased
    after ← delete_removable apply sessions retained p
    ok (map (status apply active retained) sessions, after)
