-- ===== src/Sessions/RoundTrip.antt =====
-- Which sessions are read, and that a written one is read again.
use orichum.Base.{
  String, Bool, true, false, ◌≡◌, Option, none, some, List, [], ◌∷◌, string_eq, nat_eq, refl, arith,
  All, subst, ap, sym, ◌∙◌, contains, if◌then◌else◌,
}
use orichum.Base.Dict.{Dict, lookup, keys}
use orichum.Base.Result.{ok, guard, >>=-eq-ok, ok-injective}
use orichum.Json.{Json, null, str, obj, object, entries, item, has_exactly, entries-from_entries}
use orichum.ModelRouting.{is_stack_name, roles}
use orichum.ModelRouting.Roles.{value_of, tabulate, tabulate-roles}
use orichum.RouteProxy.Policy.{Binding}
use orichum.Sessions.{
  is_session_id, text_of, binding_json, parse_binding, bad_fields, bad_leanctx, bad_id, bad_parent,
  bad_uuid, bad_root, bad_stack, bad_time,
}
use orichum.Sessions.Bindings.{
  IsBinding, text_of-ok, text_of-str, parse_binding-IsBinding, parse_binding-json,
}
use orichum.Sessions.Document.{
  LogicalSession, Formats, parent_json, agents_json, session_entries, session_json, base_keys,
  has_profile, parse_profile, parse_parent, session_agents, parse_agents, parse_session_entries,
  parse_session,
}

abbrev ParentOk : Option String → Type 0
ParentOk none = Unit
ParentOk (some s) = is_session_id s ≡ true

pub record IsSession (formats : Formats) (s : LogicalSession) : Type 0 where
  pub id_ok : is_session_id s.id ≡ true
  pub claude_id_ok : formats.is_uuid4 s.claude_session_id ≡ true
  pub parent_ok : ParentOk s.parent_id
  pub root_ok : formats.is_root s.project_root ≡ true
  pub stack_ok : is_stack_name s.stack ≡ true
  pub controller_ok : IsBinding s.controller
  pub roles_given : keys s.agents ≡ roles
  pub agents_ok : All (λ e. IsBinding e.1) s.agents
  pub profile_ok : contains ("lean" ∷ "full" ∷ []) s.leanctx_profile ≡ true
  pub time_ok : formats.is_utc s.created_at ≡ true

parse_profile-ok :
    (b : Bool) (d : Dict String Json) (p : String)
    → parse_profile b d ≡ ok p
    → contains ("lean" ∷ "full" ∷ []) p ≡ true
unfolding parse_profile
parse_profile-ok false d p h = ground (arith, h)
parse_profile-ok true d p h =
    text_of-ok (contains ("lean" ∷ "full" ∷ [])) bad_leanctx (item "leanctxProfile" d) p h

parse_parent-ok : (v : Json) (p : Option String) → parse_parent v ≡ ok p → ParentOk p
unfolding parse_parent
parse_parent-ok null p h = ground arith
parse_parent-ok v none h = tt
parse_parent-ok v (some s) h = ground (arith, text_of-ok is_session_id bad_parent v s)

parse_agents-ok :
    (rs : List String) (d : Dict String Json) (a : Dict String Binding)
    → parse_agents rs d ≡ ok a
    → (keys a ≡ rs) × All (λ e. IsBinding e.1) a
unfolding parse_agents
parse_agents-ok [] d a h = ground arith
parse_agents-ok (r ∷ rs) d a h =
    let (b, b_eq, h1) = >>=-eq-ok (parse_binding (item r d)) _ h in
    let (more, m_eq, h2) = >>=-eq-ok (parse_agents rs d) _ h1 in
    let (k, l) = parse_agents-ok rs d more m_eq in
    subst (λ a. (keys a ≡ r ∷ rs) × All (λ e. IsBinding e.1) a) (ok-injective h2)
      (ap (λ t. r ∷ t) k, (parse_binding-IsBinding (item r d) b b_eq, l))

module _ (formats : Formats) where
  parse_session_entries-IsSession :
      (d : Dict String Json) (s : LogicalSession)
      → parse_session_entries formats d ≡ ok s
      → IsSession formats s × (text_of is_session_id bad_id (item "id" d) ≡ ok s.id)
  unfolding parse_session_entries
  parse_session_entries-IsSession d s h =
      let (second, _, h1) = >>=-eq-ok (has_profile d) _ h in
      let (_, _, h2) =
        >>=-eq-ok
          (guard (has_exactly (if second then "leanctxProfile" ∷ base_keys else base_keys) d)
            bad_fields)
          _ h1 in
      let (p, p_eq, h3) = >>=-eq-ok (parse_profile second d) _ h2 in
      let (i, i_eq, h4) = >>=-eq-ok (text_of is_session_id bad_id (item "id" d)) _ h3 in
      let (o, o_eq, h5) = >>=-eq-ok (parse_parent (item "parentId" d)) _ h4 in
      let (c, c_eq, h6) =
        >>=-eq-ok (text_of formats.is_uuid4 bad_uuid (item "claudeSessionId" d)) _ h5 in
      let (r, r_eq, h7) =
        >>=-eq-ok (text_of formats.is_root bad_root (item "projectRoot" d)) _ h6 in
      let (t, t_eq, h8) = >>=-eq-ok (text_of is_stack_name bad_stack (item "stack" d)) _ h7 in
      let (raw, _, h9) = >>=-eq-ok (session_agents (item "agents" d)) _ h8 in
      let (u, u_eq, h10) = >>=-eq-ok (text_of formats.is_utc bad_time (item "createdAt" d)) _ h9 in
      let (b, b_eq, h11) = >>=-eq-ok (parse_binding (item "controller" d)) _ h10 in
      let (a, a_eq, h12) = >>=-eq-ok (parse_agents roles raw) _ h11 in
      let (k, l) = parse_agents-ok roles raw a a_eq in
      subst (λ s. IsSession formats s × (text_of is_session_id bad_id (item "id" d) ≡ ok s.id))
        (ok-injective h12)
        (
          record {
            id_ok = text_of-ok is_session_id bad_id (item "id" d) i i_eq;
            claude_id_ok = text_of-ok formats.is_uuid4 bad_uuid (item "claudeSessionId" d) c c_eq;
            parent_ok = parse_parent-ok (item "parentId" d) o o_eq;
            root_ok = text_of-ok formats.is_root bad_root (item "projectRoot" d) r r_eq;
            stack_ok = text_of-ok is_stack_name bad_stack (item "stack" d) t t_eq;
            controller_ok = parse_binding-IsBinding (item "controller" d) b b_eq;
            roles_given = k;
            agents_ok = l;
            profile_ok = parse_profile-ok second d p p_eq;
            time_ok = text_of-ok formats.is_utc bad_time (item "createdAt" d) u u_eq;
          },
          i_eq,
        )

  -- The ID is the document's.
  pub parse_session_entries-id :
      (d : Dict String Json) (i : String) (s : LogicalSession)
      → item "id" d ≡ str i
      → parse_session_entries formats d ≡ ok s
      → s.id ≡ i
  unfolding text_of
  parse_session_entries-id d i s e h =
      let q = (parse_session_entries-IsSession d s h).1 in ground (arith, e, q)

  -- Every session that is read, in either schema version, has an ID, a parent, a root, a stack, a
  -- profile and a time of the right form, and a valid binding for its controller and for each of the
  -- six roles and no other.
  pub parse_session-IsSession :
      (v : Json) (s : LogicalSession) → parse_session formats v ≡ ok s → IsSession formats s
  unfolding parse_session
  parse_session-IsSession (obj fs) s h = (parse_session_entries-IsSession (entries fs) s h).0
  parse_session-IsSession v s h = ground (arith, h)

parent-json : (o : Option String) → ParentOk o → parse_parent (parent_json o) ≡ ok o
unfolding parse_parent parent_json
parent-json none h = refl
parent-json (some s) h = rw (text_of-str is_session_id bad_parent s h) refl

parse_agents-json :
    (rs : List String) (d : Dict String Json) (missing : Binding) (agents : Dict String Binding)
    → All (λ r. item r d ≡ binding_json (value_of missing agents r)) rs
    → All (λ e. IsBinding e.1) (tabulate missing agents rs)
    → parse_agents rs d ≡ ok (tabulate missing agents rs)
unfolding parse_agents
parse_agents-json [] d missing agents i h = refl
parse_agents-json (r ∷ rs) d missing agents i h = rw i.0 (
    rw (parse_binding-json (value_of missing agents r) h.0)
      (rw (parse_agents-json rs d missing agents i.1 h.1) refl))

agents-items :
    (s : LogicalSession)
    → All (λ r. item r (agents_json s) ≡ binding_json (value_of s.controller s.agents r)) roles
unfolding item lookup agents_json string_eq
agents-items s = (refl, (refl, (refl, (refl, (refl, (refl, tt))))))

session_agents-json :
    (s : LogicalSession) → session_agents (object (agents_json s)) ≡ ok (agents_json s)
unfolding session_agents agents_json has_exactly string_eq
session_agents-json s = refl

session-exact :
    (s : LogicalSession) → has_exactly ("leanctxProfile" ∷ base_keys) (session_entries s) ≡ true
unfolding has_exactly session_entries string_eq
session-exact s = refl

session-has_profile : (s : LogicalSession) → has_profile (session_entries s) ≡ ok true
unfolding has_profile lookup session_entries string_eq nat_eq
session-has_profile s = refl

session-items :
    (s : LogicalSession)
    → (item "leanctxProfile" (session_entries s) ≡ str s.leanctx_profile)
      × (item "id" (session_entries s) ≡ str s.id)
      × (item "parentId" (session_entries s) ≡ parent_json s.parent_id)
      × (item "claudeSessionId" (session_entries s) ≡ str s.claude_session_id)
      × (item "projectRoot" (session_entries s) ≡ str s.project_root)
      × (item "stack" (session_entries s) ≡ str s.stack)
      × (item "agents" (session_entries s) ≡ object (agents_json s))
      × (item "createdAt" (session_entries s) ≡ str s.created_at)
      × (item "controller" (session_entries s) ≡ binding_json s.controller)
unfolding item lookup session_entries string_eq
session-items s = (refl, refl, refl, refl, refl, refl, refl, refl, refl)

module _ (formats : Formats) where
  agents-read :
      (s : LogicalSession) → IsSession formats s → parse_agents roles (agents_json s) ≡ ok s.agents
  agents-read s h =
      let t = tabulate-roles s.controller s.agents h.roles_given in
      parse_agents-json roles (agents_json s) s.controller s.agents (agents-items s)
        (subst (All (λ e. IsBinding e.1)) (sym t) h.agents_ok)
      ∙ ap ok t

  -- A session of this form is read again, from what is written of it, as it was.
  pub parse_session-json :
      (s : LogicalSession) → IsSession formats s → parse_session formats (session_json s) ≡ ok s
  unfolding parse_session session_json parse_session_entries parse_profile
  parse_session-json s h =
      let (l, i, o, c, r, t, a, u, b) = session-items s in
      rw (entries-from_entries (session_entries s)) (
        rw (session-has_profile s) (
          rw (session-exact s) (
            rw (l, i, o, c, r, t, a, u, b)
              (rw
                (
                  text_of-str (contains ("lean" ∷ "full" ∷ [])) bad_leanctx s.leanctx_profile
                      h.profile_ok,
                  text_of-str is_session_id bad_id s.id h.id_ok,
                  parent-json s.parent_id h.parent_ok,
                  text_of-str formats.is_uuid4 bad_uuid s.claude_session_id h.claude_id_ok,
                  text_of-str formats.is_root bad_root s.project_root h.root_ok,
                  text_of-str is_stack_name bad_stack s.stack h.stack_ok,
                  session_agents-json s,
                  text_of-str formats.is_utc bad_time s.created_at h.time_ok,
                  parse_binding-json s.controller h.controller_ok,
                )
                (rw (agents-read s h) refl)))))
