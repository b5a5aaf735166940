-- ===== src/Examples/Store.antt =====
-- The store's theorems at three sessions: the second is a fork of the first, the third stands alone.
use orichum.Base.{
  ℕ, ◌+◌, String, true, false, ◌≡◌, ◌⊎◌, ◌↔◌, refl, none, some, List, [], ◌∷◌, string_eq, nat_eq,
  option_eq, ◌==◌, contains, length, In, map, Bool-cases, inl, inr, ap, ==_iff,
}
use orichum.Base.Dict.{lookup, insert, erase, has_key, keys}
use orichum.Base.Result.{ok}
use orichum.Base.Sort.{sorted, insert_sorted}
use orichum.Base.Text.{
  matches, is_lower, is_upper, is_digit, is_alnum, is_hex, size, every, strip_prefix, matches_hex16,
  str_leb, ◌<>◌,
}
use orichum.Json.{Json, item, has_exactly}
use orichum.Account.{is_identifier, is_account_id}
use orichum.Account.Registry.{distinct}
use orichum.ModelRouting.{is_model_id, is_stack_name, roles}
use orichum.RouteProxy.Policy.{Binding}
use orichum.Sessions.{
  Checked, is_session_id, is_profile, is_upstream, hex_then_model, has_scheme, is_foreign,
  binding_json, parse_binding, text_of, priority_of, route_entries, route_json, parse_route_entries,
  parse_route, parse_routes, check_binding, parse_binding_entries,
}
use orichum.Sessions.Document.{
  LogicalSession, session_json, session_entries, agents_json, parent_json, has_profile,
  parse_profile, parse_parent, session_agents, parse_agents, parse_session_entries, parse_session,
}
use orichum.Sessions.Store.{
  Published, Draft, session_eq, draft_json, selected_profile, load_logical_session, publish,
  allocate, parent_of, create_logical_session, with_controller, replace_controller,
  update_session_controller, load_all, session_le, list_logical_sessions, resolve_logical_session,
  removable, remove_logical_session,
}
use orichum.Sessions.Changes.{SameBut, update_session_controller-ok}
use orichum.Sessions.Created.{IsCreated, create_logical_session-IsCreated}
use orichum.Sessions.Removed.{IsRemoved, remove_logical_session-ok}
use orichum.Sessions.Clear.{
  by_id, parent_in, grow, known_active, retained_ids, depth_from, session_depth, with_depths,
  deepest_first, delete_all, status, removable_of, delete_removable, clear_logical_sessions,
}
use orichum.Sessions.Ancestors.{Kept, clear-ends, retained_ids_iff}
use orichum.Sessions.Cleared.{IsKept, clear_logical_sessions-ok}
use orichum.Examples.Sessions.{session, binding, formats}

abbrev fork : LogicalSession
fork = record session { id = "oc-s-1111111111111111"; parent_id = some session.id }

abbrev lone : LogicalSession
lone = record session { id = "oc-s-2222222222222222" }

abbrev pub store : Published
store =
    (session.id, session_json session)
    ∷ (fork.id, session_json fork)
    ∷ (lone.id, session_json lone)
    ∷ []

-- The texts are short.
abbrev pub measure : Json → ℕ
measure v = 100

abbrev sessions : List LogicalSession
sessions = session ∷ fork ∷ lone ∷ []

listed : list_logical_sessions formats measure store ≡ ok sessions
unfolding list_logical_sessions load_all load_logical_session session_le sorted insert_sorted
    parse_session parse_session_entries parse_agents session_agents parse_parent parse_profile
    has_profile parent_json agents_json session_entries session_json parse_binding_entries
    check_binding parse_routes parse_route parse_route_entries route_json route_entries priority_of
    text_of parse_binding binding_json is_foreign has_scheme hex_then_model is_upstream is_profile
    is_session_id is_stack_name is_model_id distinct is_account_id is_identifier has_exactly item
    str_leb matches_hex16 strip_prefix every size is_hex is_alnum is_digit is_upper is_lower matches
    lookup string_eq nat_eq
listed = refl

loaded :
    (load_logical_session formats measure store session.id ≡ ok session)
    × (load_logical_session formats measure store lone.id ≡ ok lone)
    × (is_session_id lone.id ≡ true)
unfolding load_logical_session parse_session parse_session_entries parse_agents session_agents
    parse_parent parse_profile has_profile parent_json agents_json session_entries session_json
    parse_binding_entries check_binding parse_routes parse_route parse_route_entries route_json
    route_entries priority_of text_of parse_binding binding_json is_foreign has_scheme
    hex_then_model is_upstream is_profile is_session_id is_stack_name is_model_id distinct
    is_account_id is_identifier has_exactly item matches_hex16 strip_prefix every size is_hex
    is_alnum is_digit is_upper is_lower matches lookup string_eq nat_eq
loaded = (refl, refl, refl)

-- The fork runs: its parent stays with it, the third session goes.
abbrev leases : Checked (List String)
leases = ok (fork.id ∷ [])

abbrev after : Published
after = (session.id, session_json session) ∷ (fork.id, session_json fork) ∷ []

abbrev report : List (String × String)
report =
    (session.id, "parent-preserved") ∷ (fork.id, "active-preserved") ∷ (lone.id, "removed") ∷ []

cleared : clear_logical_sessions formats measure leases true store ≡ ok (report, after)
unfolding clear_logical_sessions delete_removable removable_of status delete_all deepest_first
    with_depths session_depth depth_from retained_ids known_active grow parent_in has_key sorted
    insert_sorted lookup erase string_eq
cleared = rw (listed, clear_logical_sessions) refl

clear_logical_sessions-ok_example :
    (found : List LogicalSession) × (list_logical_sessions formats measure store ≡ ok found)
    × (leased : List String) × (leases ≡ ok leased)
    × ((j : String) → IsKept found leased j → lookup j after ≡ lookup j store)
    × ((s : LogicalSession) → In s found → ¬ IsKept found leased s.id → lookup s.id after ≡ none)
clear_logical_sessions-ok_example =
    clear_logical_sessions-ok formats measure leases store after report cleared

retained_ids_iff_example :
    (contains (retained_ids (by_id sessions) (fork.id ∷ [])) session.id ≡ true)
    ↔ Kept (by_id sessions) (known_active (by_id sessions) (fork.id ∷ [])) session.id
retained_ids_iff_example = retained_ids_iff (by_id sessions) (fork.id ∷ []) session.id

abbrev bound : ℕ
bound = length (keys (by_id sessions))

clear-ends_example :
    ((r : List String) × (grow
          (by_id sessions)
          (bound + bound)
          (known_active (by_id sessions) (fork.id ∷ []))
          (known_active (by_id sessions) (fork.id ∷ []))
        ≡ some r))
    × ((r : Checked ℕ) × (depth_from (by_id sessions) (1 + bound) (fork.id ∷ []) fork.id ≡ some r))
clear-ends_example = clear-ends (by_id sessions) (fork.id ∷ []) fork.id

removed :
    remove_logical_session formats measure leases true store lone.id
    ≡ (ok (lone.id, "removed"), after)
unfolding remove_logical_session removable resolve_logical_session erase string_eq option_eq
removed = let (_, l, i) = loaded in rw (listed, remove_logical_session) (rw i (rw l refl))

remove_logical_session-ok_example :
    IsRemoved formats measure leases true store after lone.id lone.id "removed"
remove_logical_session-ok_example =
    remove_logical_session-ok formats measure leases true store after lone.id lone.id "removed"
      removed

abbrev pub draft : Draft
draft = record {
  project_root = "/work";
  stack = "main";
  controller = binding;
  agents = map (λ r. (r, binding)) roles;
  parent_id = none;
  leanctx_profile = none;
}

abbrev pub made : LogicalSession
made = record session { id = "oc-s-3333333333333333" }

abbrev pub grown : Published
grown = insert made.id (session_json made) store

pub created :
    create_logical_session formats measure []
      (λ i. "3333333333333333")
      (λ i. session.claude_session_id)
      session.created_at
      draft
      store
    ≡ (ok made, grown)
unfolding create_logical_session parent_of selected_profile allocate publish draft_json
    load_logical_session parse_session parse_session_entries parse_agents session_agents
    parse_parent parse_profile has_profile parent_json agents_json session_entries session_json
    parse_binding_entries check_binding parse_routes parse_route parse_route_entries route_json
    route_entries priority_of text_of parse_binding binding_json is_foreign has_scheme
    hex_then_model is_upstream is_profile is_session_id is_stack_name is_model_id distinct
    is_account_id is_identifier has_exactly item matches_hex16 strip_prefix every size is_hex
    is_alnum is_digit is_upper is_lower matches lookup insert has_key ◌<>◌ string_eq nat_eq
created = refl

create_logical_session-IsCreated_example : IsCreated formats measure store grown made
create_logical_session-IsCreated_example =
    create_logical_session-IsCreated formats measure [] (λ i. "3333333333333333")
      (λ i. session.claude_session_id) session.created_at draft store grown made created

-- The session is bound to its first account alone.
abbrev single : Binding
single = record binding { fallbacks = [] }

abbrev moved : LogicalSession
moved = record session { controller = single }

abbrev rebound : Published
rebound = insert session.id (with_controller session single) store

reparsed : parse_session formats (with_controller session single) ≡ ok moved
unfolding with_controller parse_session parse_session_entries parse_agents session_agents
    parse_parent parse_profile has_profile parent_json agents_json session_entries
    parse_binding_entries check_binding parse_routes parse_route parse_route_entries route_json
    route_entries priority_of text_of parse_binding binding_json is_foreign has_scheme
    hex_then_model is_upstream is_profile is_session_id is_stack_name is_model_id distinct
    is_account_id is_identifier has_exactly item matches_hex16 strip_prefix every size is_hex
    is_alnum is_digit is_upper is_lower matches lookup insert string_eq nat_eq
reparsed = refl

differs : (session == moved) ≡ false
differs = elim (Bool-cases (session == moved)) [
  | inl t ↦ absurd (
      let same = ap (λ (s : LogicalSession). s.controller.fallbacks) ((==_iff session moved).0 t) in
      cc)
  | inr f ↦ f
]

updated :
    update_session_controller formats measure (λ p. p) store session single ≡ (ok moved, rebound)
unfolding update_session_controller replace_controller
updated =
    let (l, _, _) = loaded in
    rw (l, update_session_controller)
      (rw (l, replace_controller)
        (rw reparsed (rw differs (rw ((==_iff session session).1 refl) refl))))

update_session_controller-ok_example :
    (parse_session formats (with_controller session single) ≡ ok moved)
    × (load_logical_session formats measure rebound session.id ≡ ok moved)
    × SameBut session.id rebound store
    × ((rebound ≡ store) ⊎ (load_logical_session formats measure store session.id ≡ ok session))
update_session_controller-ok_example =
    update_session_controller-ok formats measure (λ p. p) store rebound session moved single updated
