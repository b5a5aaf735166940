-- ===== src/Sessions/Store.antt =====
-- orichum_sessions.py: the sessions in their directories. The store is a dictionary from the names in
-- `logical-sessions` to the parsed `binding.json` of each. Permissions, links and locks are not
-- modelled; `size` is the length of a document's text.
use orichum.Base.{
  ℕ, zero, suc, ◌+◌, String, Bool, not, Option, none, some, List, [], ◌∷◌, map, leb, ◌==◌, pos,
  nat_eq, string_eq, option_eq, contains, if◌then◌else◌, select, all, any, Eq, ℕ_discrete,
}
use orichum.Base.Dict.{Dict, keys, lookup, has_key, insert, erase}
use orichum.Base.Result.{ok, err, ◌>>=◌, ◌>>◌, guard}
use orichum.Base.Sort.{sorted}
use orichum.Base.Text.{◌<>◌, str_leb}
use orichum.Json.{Json, int, str, object}
use orichum.RouteProxy.Policy.{Binding, Route-discrete}
use orichum.Sessions.{
  Checked, is_session_id, binding_json, bad_selector, unexpected_entry, unavailable, wrong_path,
  too_large, not_found, ambiguous, changed, other_project, no_id, collided, active_session,
  has_child, bad_leanctx,
}
use orichum.Sessions.Document.{
  LogicalSession, Formats, session_json, session_entries, parse_session, parent_json,
}

Binding-discrete : Discrete Binding
Binding-discrete = hlevel (Route-discrete, ℕ_discrete, string_eq.dec)

LogicalSession-discrete : Discrete LogicalSession
LogicalSession-discrete = hlevel (Binding-discrete, string_eq.dec)

instance unfoldable pub session_eq : Eq LogicalSession
unfolding Binding-discrete LogicalSession-discrete
session_eq = record { dec = LogicalSession-discrete }

abbrev pub Published : Type 0
Published = Dict String Json

-- What the caller of `create_logical_session` asks for; `project_root` is resolved.
pub record Draft : Type 0 where
  pub project_root : String
  pub stack : String
  pub controller : Binding
  pub agents : Dict String Binding
  pub parent_id : Option String
  pub leanctx_profile : Option String

unfoldable pub draft_json : Draft → String → String → String → String → Json
draft_json draft profile now identifier claude_id = object (
    ("schemaVersion", int (pos 2))
    ∷ ("id", str identifier)
    ∷ ("claudeSessionId", str claude_id)
    ∷ ("parentId", parent_json draft.parent_id)
    ∷ ("projectRoot", str draft.project_root)
    ∷ ("stack", str draft.stack)
    ∷ ("controller", binding_json draft.controller)
    ∷ ("agents", object (map (λ e. (e.0, binding_json e.1)) draft.agents))
    ∷ ("leanctxProfile", str profile)
    ∷ ("createdAt", str now)
    ∷ [])

-- The profile asked for, or the parent's, or the default.
unfoldable pub selected_profile : Option String → Option LogicalSession → String
selected_profile (some p) parent = p
selected_profile none (some s) = s.leanctx_profile
selected_profile none none = "lean"

-- The document of the session with another controller.
unfoldable pub with_controller : LogicalSession → Binding → Json
with_controller expected controller =
    object (insert "controller" (binding_json controller) (session_entries expected))

module _ (formats : Formats) (size : Json → ℕ) where
  unfoldable pub load_logical_session : Published → String → Checked LogicalSession
  load_logical_session published identifier = do
    guard (is_session_id identifier) bad_selector
    raw ← elim (lookup identifier published) [ none ↦ err unavailable | some v ↦ ok v ]
    session ← parse_session formats raw
    guard (session.id == identifier) wrong_path
    ok session

  -- From the staged directory on. A failure removes what stands under the name, also where the rename
  -- failed since a session stood there before.
  unfoldable pub publish : Published → String → LogicalSession → Checked LogicalSession × Published
  publish published identifier session =
      if not (leb (size (session_json session)) 1048576)
      then (err too_large, erase identifier published)
      else if has_key identifier published
      then (err collided, erase identifier published)
      else let after = insert identifier (session_json session) published in
        elim (load_logical_session after identifier) [
          | ok loaded ↦ (ok loaded, after)
          | err e ↦ (err e, erase identifier after)
        ]

  -- The loop over `range(32)`; `staged` are the names left in the staging directory, `tokens` and
  -- `uuids` what `secrets` and `uuid` return.
  unfoldable pub allocate :
      List String
      → (ℕ → String)
      → (ℕ → String)
      → (String → String → Json)
      → Published
      → ℕ
      → ℕ
      → Checked LogicalSession × Published
  allocate staged tokens uuids document published zero i = (err no_id, published)
  allocate staged tokens uuids document published (suc left) i =
      let rest = allocate staged tokens uuids document published left (i + 1) in
      let identifier = "oc-s-" <> tokens i in
      elim (parse_session formats (document identifier (uuids i))) [
        | err e ↦ (err e, published)
        | ok session ↦
            if contains staged identifier then rest else publish published identifier session
      ]

  unfoldable pub parent_of : Published → Draft → Checked (Option LogicalSession)
  parent_of published draft = elim draft.parent_id [
    | none ↦ ok none
    | some p ↦ load_logical_session published p >>= (λ parent.
        guard (parent.project_root == draft.project_root) other_project >> ok (some parent))
  ]

  unfoldable pub create_logical_session :
      List String
      → (ℕ → String)
      → (ℕ → String)
      → String
      → Draft
      → Published
      → Checked LogicalSession × Published
  create_logical_session staged tokens uuids now draft published =
      elim (parent_of published draft) [
        | err e ↦ (err e, published)
        | ok parent ↦
            let profile = selected_profile draft.leanctx_profile parent in
            if contains ("lean" ∷ "full" ∷ []) profile
            then allocate staged tokens uuids (draft_json draft profile now) published 32 0
            else (err bad_leanctx, published)
      ]

  -- The block under the lock; `current` and `updated` are in the code's order.
  unfoldable pub replace_controller :
      Published → LogicalSession → Binding → Checked LogicalSession × Published
  replace_controller published expected controller =
      elim (load_logical_session published expected.id) [
        | err e ↦ (err e, published)
        | ok current ↦ elim (parse_session formats (with_controller expected controller)) [
          | err e ↦ (err e, published)
          | ok updated ↦
              if current == updated
              then (ok current, published)
              else if not (current == expected)
              then (err changed, published)
              else if not (leb (size (with_controller expected controller)) 1048576)
              then (err too_large, published)
              else (ok updated, insert expected.id (with_controller expected controller) published)
        ]
      ]

  -- `interfere` is what other processes do before the lock is taken.
  unfoldable pub update_session_controller :
      (Published → Published)
      → Published
      → LogicalSession
      → Binding
      → Checked LogicalSession × Published
  update_session_controller interfere published expected controller =
      elim (load_logical_session published expected.id) [
        | err e ↦ (err e, published)
        | ok found ↦ replace_controller (interfere published) expected controller
      ]

  unfoldable pub load_all : Published → List String → Checked (List LogicalSession)
  load_all published [] = ok []
  load_all published (name ∷ names) = do
    session ← load_logical_session published name
    rest ← load_all published names
    ok (session ∷ rest)

  -- The order of the key `(created_at, id)`.
  unfoldable pub session_le : LogicalSession → LogicalSession → Bool
  session_le a b =
      if a.created_at == b.created_at then str_leb a.id b.id else str_leb a.created_at b.created_at

  unfoldable pub list_logical_sessions : Published → Checked (List LogicalSession)
  list_logical_sessions published = do
    guard (all is_session_id (keys published)) unexpected_entry
    sessions ← load_all published (sorted str_leb (keys published))
    ok (sorted session_le sessions)

  unfoldable pub resolve_logical_session : Published → String → Checked LogicalSession
  resolve_logical_session published selector =
      if is_session_id selector then load_logical_session published selector else do
        guard (formats.is_uuid4 selector) bad_selector
        sessions ← list_logical_sessions published
        elim (select (λ s. s.claude_session_id == selector) sessions) [
          | [] ↦ err not_found
          | s ∷ [] ↦ ok s
          | s ∷ t ∷ more ↦ err ambiguous
        ]

  -- `leases` is what `_active_logical_session_ids` returns.
  unfoldable pub removable : Checked (List String) → Published → String → Checked LogicalSession
  removable leases published selector = do
    sessions ← list_logical_sessions published
    target ← resolve_logical_session published selector
    active ← leases
    guard (not (contains active target.id)) active_session
    guard (not (any (λ s. s.parent_id == some target.id) sessions)) has_child
    ok target

  unfoldable pub remove_logical_session :
      Checked (List String) → Bool → Published → String → Checked (String × String) × Published
  remove_logical_session leases apply published selector =
      elim (removable leases published selector) [
        | err e ↦ (err e, published)
        | ok target ↦
            if apply
            then (ok (target.id, "removed"), erase target.id published)
            else (ok (target.id, "eligible"), published)
      ]
