-- ===== src/ModelRouting.antt =====
-- integrations/common/model_routing.py: the routing document, the catalogue, and the model that
-- each role of a stack gets. `Document` is what `validate_routing_document` returns; `Normalized`
-- is `NormalizedStacks` of stack_definition.py, with each candidate's model. Messages are kept as
-- constructors with the names in them.
pub mod Valid
pub mod Resolved
pub mod Roles
use orichum.Base.{
  map, ℕ, String, Bool, true, false, not, ◌&&◌, ◌||◌, Option, none, some, List, [], ◌∷◌, pos, ◌==◌,
  nat_eq, string_eq, contains, if◌then◌else◌, find,
}
use orichum.Base.Dict.{Dict, keys, lookup, has_key, insert}
use orichum.Base.Result.{Result, ok, err, ◌>>=◌, ◌>>◌, guard}
use orichum.Base.Text.{is_lower, is_digit, is_alnum, matches}
use orichum.Json.{Json, int, str, arr, obj, array, object, items, entries, has_exactly, item}
use orichum.Account.Registry.{distinct}

pub data RoutingError : Type 0 where
  not_exact unsafe_model : String → RoutingError
  invalid_name bad_version bad_stacks bad_agents bad_default : RoutingError
  no_candidates duplicate_candidates : String → RoutingError
  bad_catalogue bad_entry : RoutingError
  missing_stack : String → RoutingError
  unavailable : String → String → RoutingError

abbrev pub Checked : Type 0 → Type 0
Checked A = Result RoutingError A

abbrev pub legacy_roles : List String
legacy_roles =
    "repository-explorer" ∷ "repository-verifier" ∷ "correctness-critic" ∷ "architecture-advisor"
    ∷ "implementation-worker" ∷ []

abbrev pub roles : List String
roles =
    "repository-explorer" ∷ "repository-verifier" ∷ "correctness-critic" ∷ "architecture-advisor"
    ∷ "implementation-worker" ∷ "planning-advisor" ∷ []

-- `[a-z0-9][a-z0-9-]{0,62}`
unfoldable pub is_stack_name : String → Bool
is_stack_name =
    matches (λ c. is_lower c || is_digit c) (λ c. is_lower c || is_digit c || c == b'-') 62

-- `[A-Za-z0-9][A-Za-z0-9._:/@+-]{0,254}`
unfoldable pub is_model_id : String → Bool
is_model_id =
    matches is_alnum
      (λ c.
        is_alnum c
        || c == b'.'
        || c == b'_'
        || c == b':'
        || c == b'/'
        || c == b'@'
        || c == b'+'
        || c == b'-')
      254

unfoldable pub exact_object : Json → List String → String → Checked (Dict String Json)
exact_object (obj fs) names label = do
  guard (has_exactly names (entries fs)) (not_exact label)
  ok (entries fs)
exact_object _ names label = err (not_exact label)

unfoldable pub validate_stack_name : Json → Checked String
validate_stack_name (str s) = do guard (is_stack_name s) invalid_name; ok s
validate_stack_name _ = err invalid_name

unfoldable pub validate_model_id : Json → String → Checked String
validate_model_id (str s) label = do guard (is_model_id s) (unsafe_model label); ok s
validate_model_id _ label = err (unsafe_model label)

unfoldable pub validate_models : List Json → String → Checked (List String)
validate_models [] label = ok []
validate_models (v ∷ vs) label = do
  m ← validate_model_id v label
  rest ← validate_models vs label
  ok (m ∷ rest)

-- A stack of a document: its controller, and each role's candidates.
pub record Stack : Type 0 where
  pub controller : String
  pub agents : Dict String (List String)

pub record Document : Type 0 where
  pub default_stack : String
  pub stacks : Dict String Stack

-- One role's candidates.
unfoldable pub role_candidates : String → Json → Checked (List String)
role_candidates role (arr xs) = do
  guard (elim (items xs) [ [] ↦ false | _ ∷ _ ↦ true ]) (no_candidates role)
  candidates ← validate_models (items xs) role
  guard (distinct candidates) (duplicate_candidates role)
  ok candidates
role_candidates role _ = err (no_candidates role)

-- `for role in ROLES`
unfoldable pub normalize_agents :
    List String → Dict String Json → Checked (Dict String (List String))
normalize_agents [] agents = ok []
normalize_agents (role ∷ rest) agents = do
  candidates ← role_candidates role (item role agents)
  more ← normalize_agents rest agents
  ok ((role, candidates) ∷ more)

-- The two sets of roles that a stack may have; a legacy stack's planning advisor is its
-- architecture advisor.
unfoldable pub agents_of : Json → Checked (Dict String Json)
agents_of (obj fs) =
    let d = entries fs in
    if has_exactly legacy_roles d
    then ok (insert "planning-advisor" (item "architecture-advisor" d) d)
    else if has_exactly roles d
    then ok d
    else err bad_agents
agents_of _ = err bad_agents

-- The loop's body.
unfoldable pub validate_stack : String → Json → Checked (String × Stack)
validate_stack raw_name raw_stack = do
  name ← validate_stack_name (str raw_name)
  stack ← exact_object raw_stack ("controller" ∷ "agents" ∷ []) name
  controller ← validate_model_id (item "controller" stack) "controller"
  agents ← agents_of (item "agents" stack)
  normalized ← normalize_agents roles agents
  ok (name, record { controller = controller; agents = normalized })

unfoldable pub validate_stacks : Dict String Json → Checked (Dict String Stack)
validate_stacks [] = ok []
validate_stacks ((n, v) ∷ d) = do
  entry ← validate_stack n v
  rest ← validate_stacks d
  ok (entry ∷ rest)

unfoldable pub stacks_of : Json → Checked (Dict String Json)
stacks_of (obj fs) = do
  guard (elim (entries fs) [ [] ↦ false | _ ∷ _ ↦ true ]) bad_stacks
  ok (entries fs)
stacks_of _ = err bad_stacks

unfoldable pub is_version_1 : Json → Bool
is_version_1 (int (pos n)) = n == 1
is_version_1 _ = false

unfoldable pub validate_routing_document : Json → Checked Document
validate_routing_document raw = do
  document ← exact_object raw ("schemaVersion" ∷ "defaultStack" ∷ "stacks" ∷ []) "routing"
  guard (is_version_1 (item "schemaVersion" document)) bad_version
  default ← validate_stack_name (item "defaultStack" document)
  raw_stacks ← stacks_of (item "stacks" document)
  stacks ← validate_stacks raw_stacks
  guard (has_key default stacks) bad_default
  ok (record { default_stack = default; stacks = stacks })

-- `_catalog`'s entries, without the later copies that `dict.fromkeys` drops.
unfoldable pub catalogue_entries : List Json → Checked (List String)
catalogue_entries [] = ok []
catalogue_entries (obj fs ∷ vs) = do
  id ← elim (lookup "id" (entries fs)) [ some (str s) ↦ ok s | _ ↦ err bad_entry ]
  model ← validate_model_id (str id) "catalogue"
  rest ← catalogue_entries vs
  ok (model ∷ rest)
catalogue_entries (_ ∷ vs) = err bad_entry

-- `tuple(dict.fromkeys(result))`, read from the left with what was seen.
unfoldable pub from_keys : List String → List String → List String
from_keys seen [] = []
from_keys seen (x ∷ xs) =
    let again = from_keys seen xs in
    let fresh = from_keys (x ∷ seen) xs in if contains seen x then again else x ∷ fresh

unfoldable pub load_catalog : Json → Checked (List String)
load_catalog (obj fs) = do
  guard (elim (lookup "object" (entries fs)) [ some (str s) ↦ s == "list" | _ ↦ false ])
      bad_catalogue
  data_ ← elim (lookup "data" (entries fs)) [
    | some (arr xs) ↦ ok (items xs)
    | _ ↦ err bad_catalogue
  ]
  result ← catalogue_entries data_
  ok (from_keys [] result)
load_catalog _ = err bad_catalogue

-- A stack of `NormalizedStacks`: the controller has candidates too.
pub record StackDefinition : Type 0 where
  pub controller : List String
  pub agents : Dict String (List String)

pub data Routing : Type 0 where
  normalized : String → Dict String StackDefinition → Routing
  document : Document → Routing

pub record EffectiveStack : Type 0 where
  pub stack_name : String
  pub controller : String
  pub candidates : Dict String (List String)
  pub agents : Dict String String

-- `next((model for model in candidates if model in available), None)`
unfoldable pub first_available : List String → List String → Option String
first_available catalogue candidates = find (contains catalogue) candidates

-- `candidates[role]` of a role that every stack has.
unfoldable pub candidates_of : String → Dict String (List String) → List String
candidates_of role agents = elim (lookup role agents) [ some c ↦ c | none ↦ [] ]

-- `{role: … for role in ROLES}`
unfoldable pub by_role : Dict String (List String) → Dict String (List String)
by_role agents = map (λ role. (role, candidates_of role agents)) roles

unfoldable pub select_agents :
    String → List String → List String → Dict String (List String) → Checked (Dict String String)
select_agents name catalogue [] agents = ok []
select_agents name catalogue (role ∷ rest) agents = do
  model ← elim (first_available catalogue (candidates_of role agents)) [
    | some m ↦ ok m
    | none ↦ err (unavailable name role)
  ]
  more ← select_agents name catalogue rest agents
  ok ((role, model) ∷ more)

-- `requested or default`: an empty name counts as none.
unfoldable pub stack_name : Option String → String → String
stack_name none default = default
stack_name (some s) default = if s == "" then default else s

unfoldable pub effective :
    String → List String → Option String → Dict String (List String) → Checked EffectiveStack
effective name catalogue none agents = err (unavailable name "controller")
effective name catalogue (some controller) agents = do
  selected ← select_agents name catalogue roles agents
  ok (record { stack_name = name; controller = controller; candidates = agents; agents = selected })

unfoldable pub resolve_effective : Routing → List String → Option String → Checked EffectiveStack
resolve_effective (normalized default stacks) catalogue requested =
    let name = stack_name requested default in
    elim (lookup name stacks) [
      | none ↦ err (missing_stack name)
      | some stack ↦
          effective name catalogue (first_available catalogue stack.controller)
            (by_role stack.agents)
    ]
resolve_effective (document doc) catalogue requested =
    let name = stack_name requested doc.default_stack in
    elim (lookup name doc.stacks) [
      | none ↦ err (missing_stack name)
      | some stack ↦
          effective name catalogue
            (if contains catalogue stack.controller then some stack.controller else none)
            stack.agents
    ]
