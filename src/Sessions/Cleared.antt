-- ===== src/Sessions/Cleared.antt =====
-- What `clear_logical_sessions` deletes.
use orichum.Base.{
  ℕ, String, true, false, not, ◌≡◌, ◌≢◌, ◌⊎◌, inl, inr, none, List, [], ◌∷◌, map, string_eq, nat_eq,
  refl, sym, ap, ◌∙◌, subst, arith, contains, Bool-cases, In, In-select, select-In, In-map, map-In,
}
use orichum.Base.Dict.{lookup, erase, lookup-erase}
use orichum.Base.Result.{ok, >>=-eq-ok, ok-injective}
use orichum.Base.Sort.{sorted-In, In-sorted}
use orichum.Json.{Json}
use orichum.Sessions.{Checked}
use orichum.Sessions.Document.{LogicalSession, Formats}
use orichum.Sessions.Store.{Published, list_logical_sessions}
use orichum.Sessions.Clear.{
  ById, by_id, known_active, retained_ids, session_depth, with_depths, deepest_first, delete_all,
  removable_of, delete_removable, clear_logical_sessions,
}
use orichum.Sessions.Ancestors.{Kept, retained_ids_iff}

-- The session of that name stands in the list.
abbrev Listed : String → List (ℕ × LogicalSession) → Type 0
Listed j l = (e : ℕ × LogicalSession) × In e l × (e.1.id ≡ j)

delete_all-other :
    (j : String) (l : List (ℕ × LogicalSession)) (p : Published)
    → ((e : ℕ × LogicalSession) → In e l → e.1.id ≢ j)
    → lookup j (delete_all l p) ≡ lookup j p
unfolding delete_all
delete_all-other j [] p n = refl
delete_all-other j (e ∷ l) p n =
    delete_all-other j l (erase e.1.id p) (λ f m. n f (inr m))
    ∙ (let differ = n e (inl refl) in ground (arith, lookup-erase j e.1.id p, differ))

delete_all-gone :
    (j : String) (l : List (ℕ × LogicalSession)) (p : Published)
    → (lookup j p ≡ none) ⊎ Listed j l
    → lookup j (delete_all l p) ≡ none
unfolding delete_all
delete_all-gone j [] p (inl h) = h
delete_all-gone j [] p (inr (e, m, q)) = elim m [ ]
delete_all-gone j (e ∷ l) p (inl h) =
    delete_all-gone j l (erase e.1.id p) (inl (ground (arith, lookup-erase j e.1.id p, h)))
delete_all-gone j (e ∷ l) p (inr (f, inl same, q)) = delete_all-gone j l (erase e.1.id p) (
    inl (
      let here : e.1.id ≡ j = ap (λ (e : ℕ × LogicalSession). e.1.id) (sym same) ∙ q in
      ground (arith, lookup-erase j e.1.id p, here)))
delete_all-gone j (e ∷ l) p (inr (f, inr m, q)) =
    delete_all-gone j l (erase e.1.id p) (inr (f, m, q))

with_depths-In :
    (d : ById) (ss : List LogicalSession) (l : List (ℕ × LogicalSession))
    → with_depths d ss ≡ ok l
    → map (λ e. e.1) l ≡ ss
unfolding with_depths
with_depths-In d [] l h = ground (arith, h)
with_depths-In d (s ∷ ss) l h =
    let (k, _, h1) = >>=-eq-ok (session_depth d s.id) _ h in
    let (rest, r, h2) = >>=-eq-ok (with_depths d ss) _ h1 in
    subst (λ l. map (λ e. e.1) l ≡ s ∷ ss) (ok-injective h2)
      (ap (λ t. s ∷ t) (with_depths-In d ss rest r))

module _ (sessions : List LogicalSession) (leased : List String) where
  abbrev pub IsKept : String → Type 0
  IsKept = Kept (by_id sessions) (known_active (by_id sessions) leased)

  abbrev retained : List String
  retained = retained_ids (by_id sessions) leased

  deleted-removable :
      (l : List (ℕ × LogicalSession)) (e : ℕ × LogicalSession)
      → with_depths (by_id sessions) (removable_of sessions retained) ≡ ok l
      → In e (deepest_first l)
      → contains retained e.1.id ≡ false
  unfolding deepest_first removable_of
  deleted-removable l e h m =
      let m1 = In-map (λ (e : ℕ × LogicalSession). e.1) e l (sorted-In _ e l m) in
      let m2 =
        subst (In e.1) (with_depths-In (by_id sessions) (removable_of sessions retained) l h) m1 in
      let (_, n) = In-select (λ s. not (contains retained s.id)) e.1 sessions m2 in
      ground (arith, n)

  removable-deleted :
      (l : List (ℕ × LogicalSession)) (s : LogicalSession)
      → with_depths (by_id sessions) (removable_of sessions retained) ≡ ok l
      → In s sessions
      → contains retained s.id ≡ false
      → Listed s.id (deepest_first l)
  unfolding deepest_first removable_of
  removable-deleted l s h m n =
      let m1 = select-In (λ s. not (contains retained s.id)) s sessions m (ground (arith, n)) in
      let m2 =
        subst (In s) (sym (with_depths-In (by_id sessions) (removable_of sessions retained) l h))
          m1 in
      let (e, i, q) = map-In (λ (e : ℕ × LogicalSession). e.1) s l m2 in
      (e, In-sorted _ e l i, ap (λ (s : LogicalSession). s.id) (sym q))

  not_kept : (j : String) → ¬ IsKept j → contains retained j ≡ false
  not_kept j n = elim (Bool-cases (contains retained j)) [
    | inl t ↦ absurd (n ((retained_ids_iff (by_id sessions) leased j).0 t))
    | inr f ↦ f
  ]

module _ (formats : Formats) (size : Json → ℕ) (leases : Checked (List String)) where
  -- Clearing that succeeds leaves every active session and every ancestor of one as it was, and
  -- deletes every other session of the store.
  pub clear_logical_sessions-ok :
      (p after : Published) (report : List (String × String))
      → clear_logical_sessions formats size leases true p ≡ ok (report, after)
      → (sessions : List LogicalSession) × (list_logical_sessions formats size p ≡ ok sessions)
        × (leased : List String) × (leases ≡ ok leased)
        × ((j : String) → IsKept sessions leased j → lookup j after ≡ lookup j p)
        × ((s : LogicalSession)
            → In s sessions
            → ¬ IsKept sessions leased s.id
            → lookup s.id after ≡ none)
  unfolding clear_logical_sessions delete_removable
  clear_logical_sessions-ok p after report h =
      let (sessions, s_eq, h1) = >>=-eq-ok (list_logical_sessions formats size p) _ h in
      let (leased, l_eq, h2) = >>=-eq-ok leases _ h1 in
      let kept = retained sessions leased in
      let (gone, g_eq, h3) =
        >>=-eq-ok (delete_removable formats size leases true sessions kept p) _ h2 in
      let (l, d_eq, h4) =
        >>=-eq-ok (with_depths (by_id sessions) (removable_of sessions kept)) _ g_eq in
      let result : delete_all (deepest_first l) p ≡ after = ok-injective h4 ∙ ground (arith, h3) in
      (
        sessions,
        s_eq,
        leased,
        l_eq,
        λ j k.
            subst (λ a. lookup j a ≡ lookup j p) result
              (delete_all-other j (deepest_first l) p (λ e m same.
                let out = deleted-removable sessions leased l e d_eq m in
                let here = (retained_ids_iff (by_id sessions) leased j).1 k in
                ground (arith, out, here, same))),
        λ s m n.
            subst (λ a. lookup s.id a ≡ none) result
              (delete_all-gone s.id (deepest_first l) p (
                inr (
                  removable-deleted sessions leased l s d_eq m (not_kept sessions leased s.id n)))),
      )
