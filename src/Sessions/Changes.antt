-- ===== src/Sessions/Changes.antt =====
-- What an update of a session changes in the session store, and what the store is compared by.
use orichum.Base.{
  ℕ, String, true, ◌≡◌, ◌≢◌, ◌⊎◌, inl, inr, none, some, string_eq, nat_eq, option_eq, refl, sym, ap,
  ◌∙◌, subst, arith, Bool-cases, ◌==◌, ==_iff,
}
use orichum.Base.Dict.{lookup, insert, erase, lookup-insert, lookup-erase}
use orichum.Base.Result.{ok, err, guard, >>=-eq-ok, Result-cases}
use orichum.Json.{Json, str, item, entries-from_entries}
use orichum.RouteProxy.Policy.{Binding}
use orichum.Sessions.{
  SessionError, is_session_id, binding_json, bad_selector, unavailable, wrong_path,
}
use orichum.Sessions.RoundTrip.{parse_session_entries-id}
use orichum.Sessions.Document.{LogicalSession, Formats, session_entries, parse_session}
use orichum.Sessions.Store.{
  session_eq, Published, load_logical_session, with_controller, replace_controller,
  update_session_controller,
}

-- Two stores differ at most at one name.
abbrev pub SameBut : String → Published → Published → Type 0
SameBut i a b = (j : String) → j ≢ i → lookup j a ≡ lookup j b

module _ (i : String) (v : Json) (p : Published) where
  pub insert-SameBut : SameBut i (insert i v p) p
  insert-SameBut j n = ground (arith, lookup-insert j i v p)

  erase-SameBut : SameBut i (erase i p) p
  erase-SameBut j n = ground (arith, lookup-erase j i p)

controller-item :
    (e : LogicalSession) (b : Binding)
    → item "id" (insert "controller" (binding_json b) (session_entries e)) ≡ str e.id
unfolding item lookup insert session_entries string_eq
controller-item e b = refl

module _ (formats : Formats) where
  module _ (size : Json → ℕ) where
    pub load-ok :
        (p : Published) (i : String) (s : LogicalSession)
        → load_logical_session formats size p i ≡ ok s
        → (is_session_id i ≡ true) × (s.id ≡ i) × ((v : Json) × (lookup i p ≡ some v))
    unfolding load_logical_session
    load-ok p i s h =
        let (_, g, h1) = >>=-eq-ok (guard (is_session_id i) bad_selector) _ h in
        let (v, f, h2) =
          >>=-eq-ok (elim (lookup i p) [ none ↦ err unavailable | some v ↦ ok v ]) _ h1 in
        let (session, _, h3) = >>=-eq-ok (parse_session formats v) _ h2 in
        let (_, n, h4) = >>=-eq-ok (guard (session.id == i) wrong_path) _ h3 in
        (ground (arith, g), ground (arith, n, h4), (v, ground (arith, f)))

    load-insert :
        (p : Published) (i : String) (v : Json) (s : LogicalSession)
        → is_session_id i ≡ true
        → parse_session formats v ≡ ok s
        → s.id ≡ i
        → load_logical_session formats size (insert i v p) i ≡ ok s
    unfolding load_logical_session
    load-insert p i v s g e n =
        let here : lookup i (insert i v p) ≡ some v = ground (arith, lookup-insert i i v p) in
        let same : (s.id == i) ≡ true = ground (arith, n) in rw g (rw here (rw e (rw same refl)))

    with_controller-id :
        (e s : LogicalSession) (b : Binding)
        → parse_session formats (with_controller e b) ≡ ok s
        → s.id ≡ e.id
    unfolding parse_session with_controller
    with_controller-id e s b h =
        parse_session_entries-id formats (insert "controller" (binding_json b) (session_entries e))
          e.id s (controller-item e b)
          (rw (entries-from_entries (insert "controller" (binding_json b) (session_entries e))) at
            h)

    replace_controller-ok :
        (p after : Published) (e s : LogicalSession) (b : Binding)
        → replace_controller formats size p e b ≡ (ok s, after)
        → (parse_session formats (with_controller e b) ≡ ok s)
          × (load_logical_session formats size after e.id ≡ ok s)
          × SameBut e.id after p
          × ((after ≡ p) ⊎ (load_logical_session formats size p e.id ≡ ok e))
    unfolding replace_controller
    replace_controller-ok p after e s b h =
        elim (Result-cases (load_logical_session formats size p e.id)) [
          | inr (x, q) ↦ ground (arith, q)
          | inl (current, q) ↦ elim (Result-cases (parse_session formats (with_controller e b))) [
            | inr (x, r) ↦ ground (arith, q, r)
            | inl (updated, r) ↦ elim (Bool-cases (current == updated)) [
              | inl t ↦
                  let same : current ≡ updated = (==_iff current updated).0 t in
                  let result : updated ≡ s = ground (arith, q, r, t) in
                  let still : p ≡ after = ground (arith, q, r, t) in
                  (
                    r ∙ ap ok result,
                    ap (λ p. load_logical_session formats size p e.id) (sym still)
                        ∙ q
                        ∙ ap ok (same ∙ result),
                    λ j n. ap (lookup j) (sym still),
                    inl (sym still),
                  )
              | inr f ↦
                  let held : current ≡ e = ground (arith, q, r, f) in
                  let result : updated ≡ s = ground (arith, q, r, f) in
                  let written : insert e.id (with_controller e b) p ≡ after =
                    ground (arith, q, r, f) in
                  let (g, _, _) = load-ok p e.id current q in
                  (
                    r ∙ ap ok result,
                    ap (λ p. load_logical_session formats size p e.id) (sym written)
                        ∙ load-insert p e.id (with_controller e b) updated g r
                            (with_controller-id e updated b r)
                        ∙ ap ok result,
                    subst (λ a. SameBut e.id a p) written
                        (insert-SameBut e.id (with_controller e b) p),
                    inr (q ∙ ap ok held),
                  )
            ]
          ]
        ]

    -- An update of a session's controller that returns a session returns what the expected document
    -- says with the new controller, and reading the store gives that session. It either found it there
    -- already and wrote nothing, or replaced exactly the session that the caller expected, whatever
    -- other processes did before the lock was taken. No other session changed.
    pub update_session_controller-ok :
        (interfere : Published → Published) (p after : Published) (e s : LogicalSession)
        (b : Binding)
        → update_session_controller formats size interfere p e b ≡ (ok s, after)
        → (parse_session formats (with_controller e b) ≡ ok s)
          × (load_logical_session formats size after e.id ≡ ok s)
          × SameBut e.id after (interfere p)
          × ((after ≡ interfere p) ⊎ (load_logical_session formats size (interfere p) e.id ≡ ok e))
    unfolding update_session_controller
    update_session_controller-ok interfere p after e s b h =
        elim (Result-cases (load_logical_session formats size p e.id)) [
          | inr (x, q) ↦ ground (arith, q)
          | inl (found, q) ↦
              replace_controller-ok (interfere p) after e s b
                (rw (q, update_session_controller) at h)
        ]

    -- An update that raises wrote nothing.
    pub update_session_controller-err :
        (interfere : Published → Published) (p after : Published) (e : LogicalSession) (b : Binding)
        (x : SessionError)
        → update_session_controller formats size interfere p e b ≡ (err x, after)
        → (after ≡ p) ⊎ (after ≡ interfere p)
    unfolding update_session_controller replace_controller
    update_session_controller-err interfere p after e b x h = ground (arith, h)
