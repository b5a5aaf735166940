-- ===== src/Sessions/Removed.antt =====
-- What `remove_logical_session` of integrations/common/orichum_sessions.py did.
use orichum.Base.{
  ◌≢◌, ◌⊎◌, In, In-select, select-In, List-cases, Bool-cases, refl, sym, ap, ◌∙◌, [], ◌∷◌, true,
  ==_iff, select, ℕ, String, Bool, false, not, ◌≡◌, inl, inr, some, List, string_eq, nat_eq,
  option_eq, subst, arith, contains, any, ◌==◌, if◌then◌else◌,
}
use orichum.Base.Dict.{erase}
use orichum.Base.Result.{err, ◌>>=◌, ◌>>◌, ok, guard, >>=-eq-ok, ok-injective, Result-cases}
use orichum.Json.{Json}
use orichum.Sessions.{Checked, active_session, has_child}
use orichum.Sessions.Document.{LogicalSession, Formats}
use orichum.Sessions.Store.{
  session_eq, Published, list_logical_sessions, resolve_logical_session, removable,
  remove_logical_session,
}
use orichum.Sessions.{is_session_id}
use orichum.Sessions.Store.{load_logical_session}
use orichum.Sessions.Changes.{load-ok}
use orichum.Sessions.{bad_selector, not_found, ambiguous}

module _ (formats : Formats) where
  module _ (size : Json → ℕ) where
    -- The session that a selector names: the one with that ID, or, of the sessions listed, the only
    -- one with that UUID of Claude's.
    abbrev pub Names : List LogicalSession → Published → String → LogicalSession → Type 0
    Names sessions p selector t =
        ((is_session_id selector ≡ true)
          × (t.id ≡ selector)
          × (load_logical_session formats size p selector ≡ ok t))
        ⊎ ((formats.is_uuid4 selector ≡ true)
            × In t sessions
            × (t.claude_session_id ≡ selector)
            × ((s : LogicalSession) → In s sessions → s.claude_session_id ≡ selector → s ≡ t))

    only-Names :
        (sessions : List LogicalSession) (selector : String) (t : LogicalSession)
        → select (λ s. s.claude_session_id == selector) sessions ≡ t ∷ []
        → In t sessions
          × (t.claude_session_id ≡ selector)
          × ((s : LogicalSession) → In s sessions → s.claude_session_id ≡ selector → s ≡ t)
    only-Names sessions selector t e =
        let has = λ (s : LogicalSession). s.claude_session_id == selector in
        let (m, h) = In-select has t sessions (rw e (inl refl)) in
        (
          m,
          (==_iff t.claude_session_id selector).0 h,
          λ s n q.
              elim (let here : (s ≡ t) ⊎ ⊥ =
                  rw e at
                    (select-In has s sessions n ((==_iff s.claude_session_id selector).1 q)) in
                here) [ inl same ↦ same | inr none ↦ absurd none ],
        )

    resolve_logical_session-Names :
        (p : Published) (selector : String) (sessions : List LogicalSession) (t : LogicalSession)
        → list_logical_sessions formats size p ≡ ok sessions
        → resolve_logical_session formats size p selector ≡ ok t
        → Names sessions p selector t
    unfolding resolve_logical_session
    resolve_logical_session-Names p selector sessions t l h =
        elim (Bool-cases (is_session_id selector)) [
          | inl i ↦
              let found : load_logical_session formats size p selector ≡ ok t = rw i at h in
              let (_, same, _) = load-ok formats size p selector t found in inl (i, same, found)
          | inr n ↦
              let h0 : (guard (formats.is_uuid4 selector) bad_selector
                    >> (list_logical_sessions formats size p >>= (λ sessions.
                        elim (select (λ s. s.claude_session_id == selector) sessions) [
                          | [] ↦ err not_found
                          | s ∷ [] ↦ ok s
                          | s ∷ t ∷ more ↦ err ambiguous
                        ])))
                  ≡ ok t =
                rw n at h in
              let (_, u, _) = >>=-eq-ok (guard (formats.is_uuid4 selector) bad_selector) _ h0 in
              elim (List-cases (select (λ s. s.claude_session_id == selector) sessions)) [
                | inl e ↦ ground (arith, u, h0, l, e)
                | inr (inl (s, e)) ↦
                    let same : s ≡ t = ground (arith, u, h0, l, e) in
                    let (m, c, alone) =
                      only-Names sessions selector t (e ∙ ap (λ s. s ∷ []) same) in
                    inr (ground (arith, u), m, c, alone)
                | inr (inr (s, r, more, e)) ↦ ground (arith, u, h0, l, e)
              ]
        ]

    -- What a removal that succeeds did.
    pub record IsRemoved (leases : Checked (List String)) (apply : Bool) (p after : Published)
        (selector i status : String) : Type 0 where
      pub active : List String
      pub leased : leases ≡ ok active
      pub sessions : List LogicalSession
      pub listed : list_logical_sessions formats size p ≡ ok sessions
      pub target : LogicalSession
      pub named : Names sessions p selector target
      pub id : target.id ≡ i
      pub inactive : contains active i ≡ false
      pub childless : (s : LogicalSession) → In s sessions → s.parent_id ≢ some i
      pub reported : status ≡ (if apply then "removed" else "eligible")
      pub changed : after ≡ (if apply then erase i p else p)

    childless-In :
        (i : String) (sessions : List LogicalSession) (s : LogicalSession)
        → any (λ s. s.parent_id == some i) sessions ≡ false
        → In s sessions
        → s.parent_id ≢ some i
    childless-In i [] s h m q = elim m [ ]
    childless-In i (r ∷ rest) s h (inl e) q =
        let there =
          (==_iff r.parent_id (some i)).1 (ap (λ (s : LogicalSession). s.parent_id) (sym e) ∙ q) in
        ground (arith, h, there)
    childless-In i (r ∷ rest) s h (inr m) q = childless-In i rest s (ground (arith, h)) m q

    removable-IsRemoved :
        (leases : Checked (List String)) (apply : Bool) (p : Published) (selector : String)
        (t : LogicalSession)
        → removable formats size leases p selector ≡ ok t
        → IsRemoved leases apply p
            (if apply then erase t.id p else p)
            selector
            t.id
            (if apply then "removed" else "eligible")
    unfolding removable
    removable-IsRemoved leases apply p selector t h =
        let (sessions, l, h1) = >>=-eq-ok (list_logical_sessions formats size p) _ h in
        let (target, r, h2) = >>=-eq-ok (resolve_logical_session formats size p selector) _ h1 in
        let (active, a, h3) = >>=-eq-ok leases _ h2 in
        let (_, g, h4) = >>=-eq-ok (guard (not (contains active target.id)) active_session) _ h3 in
        let (_, c, h5) =
          >>=-eq-ok (guard (not (any (λ s. s.parent_id == some target.id) sessions)) has_child) _
            h4 in
        let same = ok-injective h5 in
        let left : any (λ s. s.parent_id == some target.id) sessions ≡ false = ground (arith, c) in
        subst
          (λ t.
            IsRemoved leases apply p (if apply then erase t.id p else p) selector t.id
              (if apply then "removed" else "eligible"))
          same
          (record {
            active = active;
            leased = a;
            sessions = sessions;
            listed = l;
            target = target;
            named = resolve_logical_session-Names p selector sessions target l r;
            id = refl;
            inactive = ground (arith, g);
            childless = λ s m. childless-In target.id sessions s left m;
            reported = refl;
            changed = refl;
          })

    -- A removal that succeeds is of the session that the selector names: the one with that ID, or the
    -- only session in the store with that UUID of Claude's. It is not active and is the parent of no
    -- session in the store. If the removal was to be applied, exactly it is gone and "removed" is
    -- returned with its ID; otherwise the store is as it was, and "eligible" is returned.
    pub remove_logical_session-ok :
        (leases : Checked (List String)) (apply : Bool) (p after : Published)
        (selector i status : String)
        → remove_logical_session formats size leases apply p selector ≡ (ok (i, status), after)
        → IsRemoved leases apply p after selector i status
    unfolding remove_logical_session
    remove_logical_session-ok leases apply p after selector i status h =
        elim (Result-cases (removable formats size leases p selector)) [
          | inr (x, e) ↦ ground (arith, e)
          | inl (t, e) ↦
              let same : t.id ≡ i = ground (arith, e) in
              let said : (if apply then "removed" else "eligible") ≡ status = ground (arith, e) in
              let left : (if apply then erase t.id p else p) ≡ after = ground (arith, e) in
              subst (λ i. IsRemoved leases apply p after selector i status) same
                (subst (λ (status : String). IsRemoved leases apply p after selector t.id status)
                  said
                  (subst
                    (λ after.
                      IsRemoved leases apply p after selector t.id
                        (if apply then "removed" else "eligible"))
                    left (removable-IsRemoved leases apply p selector t e)))
        ]
