-- ===== src/Sessions/Created.antt =====
-- What `create_logical_session` of integrations/common/orichum_sessions.py did.
use orichum.Base.{
  ℕ, zero, suc, ◌+◌, String, false, ◌≡◌, inl, inr, List, [], ◌∷◌, string_eq, nat_eq, option_eq,
  refl, sym, subst, arith, contains, Bool-cases,
}
use orichum.Base.Dict.{insert, has_key, lookup-insert, lookup-erase}
use orichum.Base.Result.{ok, Result-cases}
use orichum.Json.{Json}
use orichum.Base.Text.{◌<>◌}
use orichum.Sessions.Document.{LogicalSession, Formats, session_json, parse_session}
use orichum.Sessions.Store.{
  session_eq, Published, Draft, load_logical_session, publish, allocate, parent_of,
  create_logical_session, draft_json, selected_profile,
}
use orichum.Sessions.Changes.{SameBut, load-ok}

module _ (formats : Formats) where
  module _ (size : Json → ℕ) where
    publish-ok :
        (p after : Published) (i : String) (session s : LogicalSession)
        → publish formats size p i session ≡ (ok s, after)
        → (has_key i p ≡ false)
          × (load_logical_session formats size after i ≡ ok s)
          × (after ≡ insert i (session_json session) p)
    unfolding publish
    publish-ok p after i session s h = ground (arith, h)

    publish-SameBut :
        (p : Published) (i : String) (session : LogicalSession)
        → SameBut i (publish formats size p i session).1 p
    unfolding publish
    publish-SameBut p i session j n = ground (
      arith,
      lookup-erase j i p,
      lookup-insert j i (session_json session) p,
      lookup-erase j i (insert i (session_json session) p),
    )

    -- What a creation that succeeds did.
    pub record IsCreated (p after : Published) (s : LogicalSession) : Type 0 where
      pub fresh : has_key s.id p ≡ false
      pub loaded : load_logical_session formats size after s.id ≡ ok s
      pub document : Json
      pub added : after ≡ insert s.id document p

    module _ (staged : List String) (tokens uuids : ℕ → String) where
      allocate-ok :
          (document : String → String → Json) (p after : Published) (left i : ℕ)
          (s : LogicalSession)
          → allocate formats size staged tokens uuids document p left i ≡ (ok s, after)
          → IsCreated p after s
      unfolding allocate
      allocate-ok document p after zero i s h = ground (arith, h)
      allocate-ok document p after (suc left) i s h =
          let identifier = "oc-s-" <> tokens i in
          elim (Result-cases (parse_session formats (document identifier (uuids i)))) [
            | inr (x, q) ↦ ground (arith, q)
            | inl (session, q) ↦ elim (Bool-cases (contains staged identifier)) [
              | inl t ↦ allocate-ok document p after left (i + 1) s (ground (arith, q, t))
              | inr f ↦
                  let (k, l, a) = publish-ok p after identifier session s (ground (arith, q, f)) in
                  let (_, same, _) = load-ok formats size after identifier s l in
                  record {
                    fresh = rw same k;
                    loaded =
                        subst (λ k. load_logical_session formats size after k ≡ ok s) (sym same) l;
                    document = session_json session;
                    added = rw same a;
                  }
            ]
          ]

      -- A new session has an ID that no session in the store has, is found under it as it was returned,
      -- and is the only change to the store.
      pub create_logical_session-IsCreated :
          (now : String) (draft : Draft) (p after : Published) (s : LogicalSession)
          → create_logical_session formats size staged tokens uuids now draft p ≡ (ok s, after)
          → IsCreated p after s
      unfolding create_logical_session
      create_logical_session-IsCreated now draft p after s h =
          elim (Result-cases (parent_of formats size p draft)) [
            | inr (x, e) ↦ ground (arith, e)
            | inl (parent, e) ↦
                let profile = selected_profile draft.leanctx_profile parent in
                elim (Bool-cases (contains ("lean" ∷ "full" ∷ []) profile)) [
                  | inr f ↦ ground (arith, e, f)
                  | inl t ↦
                      allocate-ok (draft_json draft profile now) p after 32 0 s
                        (ground (arith, e, t))
                ]
          ]

      allocate-SameBut :
          (document : String → String → Json) (p : Published) (left i : ℕ)
          → (k : String) × SameBut k
              (allocate formats size staged tokens uuids document p left i).1
              p
      unfolding allocate
      allocate-SameBut document p zero i = ("", λ j n. refl)
      allocate-SameBut document p (suc left) i =
          let identifier = "oc-s-" <> tokens i in
          elim (Result-cases (parse_session formats (document identifier (uuids i)))) [
            | inr (x, q) ↦ rw (q, allocate) (identifier, λ j n. refl)
            | inl (session, q) ↦ elim (Bool-cases (contains staged identifier)) [
              | inl t ↦ rw (q, allocate) (rw t (allocate-SameBut document p left (i + 1)))
              | inr f ↦ rw (q, allocate) (rw f (identifier, publish-SameBut p identifier session))
            ]
          ]

      -- Whatever becomes of a creation, at most one name in the store changes.
      pub create_logical_session-SameBut :
          (now : String) (draft : Draft) (p : Published)
          → (k : String) × SameBut k
              (create_logical_session formats size staged tokens uuids now draft p).1
              p
      unfolding create_logical_session
      create_logical_session-SameBut now draft p =
          elim (Result-cases (parent_of formats size p draft)) [
            | inr (x, e) ↦ rw (e, create_logical_session) ("", λ j n. refl)
            | inl (parent, e) ↦
                let profile = selected_profile draft.leanctx_profile parent in
                elim (Bool-cases (contains ("lean" ∷ "full" ∷ []) profile)) [
                  | inr f ↦ rw (e, create_logical_session) (rw f ("", λ j n. refl))
                  | inl t ↦
                      rw (e, create_logical_session)
                        (rw t (allocate-SameBut (draft_json draft profile now) p 32 0))
                ]
          ]
