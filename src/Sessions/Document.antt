-- ===== src/Sessions/Document.antt =====
-- orichum_sessions.py: the document of a session. What the standard library says of a text is an
-- argument: whether it is the canonical form of a version 4 UUID, an absolute path that resolves to
-- itself, and a time in UTC.
use orichum.Base.{
  String, Bool, true, false, Option, none, some, List, [], ◌∷◌, map, pos, ◌==◌, nat_eq, string_eq,
  contains, if◌then◌else◌,
}
use orichum.Base.Dict.{Dict, lookup, insert}
use orichum.Base.Result.{ok, err, ◌>>=◌, ◌>>◌, guard}
use orichum.Json.{Json, null, int, str, obj, object, entries, has_exactly, item}
use orichum.ModelRouting.{is_stack_name, roles, legacy_roles}
use orichum.ModelRouting.Roles.{value_of}
use orichum.RouteProxy.Policy.{Binding}
use orichum.Sessions.{
  Checked, is_session_id, text_of, binding_json, parse_binding, bad_fields, bad_schema, bad_leanctx,
  bad_id, bad_parent, bad_uuid, bad_root, bad_stack, bad_agents, bad_time,
}

pub record LogicalSession : Type 0 where
  pub id : String
  pub claude_session_id : String
  pub parent_id : Option String
  pub project_root : String
  pub stack : String
  pub controller : Binding
  pub agents : Dict String Binding
  pub leanctx_profile : String
  pub created_at : String

-- The standard library's judgements.
pub record Formats : Type 0 where
  pub is_uuid4 : String → Bool
  pub is_root : String → Bool
  pub is_utc : String → Bool

unfoldable pub parent_json : Option String → Json
parent_json none = null
parent_json (some s) = str s

-- `{role: _binding_json(session.agents[role]) for role in ROLES}`; every session has every role.
unfoldable pub agents_json : LogicalSession → Dict String Json
agents_json s = map (λ role. (role, binding_json (value_of s.controller s.agents role))) roles

unfoldable pub session_entries : LogicalSession → Dict String Json
session_entries s =
    ("schemaVersion", int (pos 2))
    ∷ ("id", str s.id)
    ∷ ("claudeSessionId", str s.claude_session_id)
    ∷ ("parentId", parent_json s.parent_id)
    ∷ ("projectRoot", str s.project_root)
    ∷ ("stack", str s.stack)
    ∷ ("controller", binding_json s.controller)
    ∷ ("agents", object (agents_json s))
    ∷ ("leanctxProfile", str s.leanctx_profile)
    ∷ ("createdAt", str s.created_at)
    ∷ []

unfoldable pub session_json : LogicalSession → Json
session_json s = object (session_entries s)

abbrev pub base_keys : List String
base_keys =
    "schemaVersion" ∷ "id" ∷ "claudeSessionId" ∷ "parentId" ∷ "projectRoot" ∷ "stack" ∷ "controller"
    ∷ "agents" ∷ "createdAt" ∷ []

-- Whether the document is of version 2, which has a profile.
unfoldable pub has_profile : Dict String Json → Checked Bool
has_profile d = elim (lookup "schemaVersion" d) [
  | some (int (pos n)) ↦ if n == 1 then ok false else if n == 2 then ok true else err bad_schema
  | _ ↦ err bad_schema
]

unfoldable pub parse_profile : Bool → Dict String Json → Checked String
parse_profile false d = ok "full"
parse_profile true d =
    text_of (contains ("lean" ∷ "full" ∷ [])) bad_leanctx (item "leanctxProfile" d)

unfoldable pub parse_parent : Json → Checked (Option String)
parse_parent null = ok none
parse_parent v = do s ← text_of is_session_id bad_parent v; ok (some s)

-- A session of five agents has its architecture advisor plan too.
unfoldable pub session_agents : Json → Checked (Dict String Json)
session_agents (obj fs) =
    let d = entries fs in
    if has_exactly legacy_roles d
    then ok (insert "planning-advisor" (item "architecture-advisor" d) d)
    else if has_exactly roles d
    then ok d
    else err bad_agents
session_agents _ = err bad_agents

unfoldable pub parse_agents : List String → Dict String Json → Checked (Dict String Binding)
parse_agents [] d = ok []
parse_agents (role ∷ rest) d = do
  binding ← parse_binding (item role d)
  more ← parse_agents rest d
  ok ((role, binding) ∷ more)

module _ (formats : Formats) where
  unfoldable pub parse_session_entries : Dict String Json → Checked LogicalSession
  parse_session_entries d = do
    second ← has_profile d
    guard (has_exactly (if second then "leanctxProfile" ∷ base_keys else base_keys) d) bad_fields
    profile ← parse_profile second d
    id ← text_of is_session_id bad_id (item "id" d)
    parent ← parse_parent (item "parentId" d)
    claude_id ← text_of formats.is_uuid4 bad_uuid (item "claudeSessionId" d)
    root ← text_of formats.is_root bad_root (item "projectRoot" d)
    stack ← text_of is_stack_name bad_stack (item "stack" d)
    raw_agents ← session_agents (item "agents" d)
    created ← text_of formats.is_utc bad_time (item "createdAt" d)
    controller ← parse_binding (item "controller" d)
    agents ← parse_agents roles raw_agents
    ok (record {
      id = id;
      claude_session_id = claude_id;
      parent_id = parent;
      project_root = root;
      stack = stack;
      controller = controller;
      agents = agents;
      leanctx_profile = profile;
      created_at = created;
    })

  unfoldable pub parse_session : Json → Checked LogicalSession
  parse_session (obj fs) = parse_session_entries (entries fs)
  parse_session _ = err bad_fields
