-- ===== src/ModelStacks.antt =====
-- integrations/common/stack_definition.py: the document of models and stacks, in both schema
-- versions, and the normalized form that the rest of the program reads. A label only words a message
-- and is left out. The keys of a JSON object differ, so that each entry of a `dict` that a loop over
-- one fills is new.
pub mod Normalize
pub mod Parsed
pub mod Valid
pub mod Migrated
pub mod Accepted
pub mod Fresh
pub mod Unique
pub mod Serialize
pub mod Written
pub mod WrittenStacks
pub mod RoundTrip
pub mod Reread
use orichum.Base.{
  ℕ, zero, suc, ◌+◌, String, Bool, true, false, not, ◌&&◌, ◌||◌, List, [], ◌∷◌, ◌++◌, map, none,
  some, ◌==◌, nat_eq, string_eq, contains, if◌then◌else◌, all, any, ℤ, pos,
}
use orichum.Base.Dict.{Dict, keys, lookup, has_key}
use orichum.Base.Result.{Result, ok, err, ◌>>=◌, ◌>>◌, guard}
use orichum.Base.Sort.{sorted}
use orichum.Base.Text.{◌<>◌, matches_hex16, str_leb}
use orichum.Json.{Json, int, str, arr, obj, items, entries, has_exactly, item}
use orichum.Account.{is_identifier}
use orichum.Account.Registry.{distinct}
use orichum.ModelRouting.{RoutingError, is_model_id, validate_model_id, validate_stack_name}

-- `routing` is a `RoutingError` raised again.
pub data StackError : Type 0 where
  routing : RoutingError → StackError
  wrong_fields bad_identifier no_models no_routes bad_schema missing_default : StackError
  unsafe_id repeated_id unknown_model no_providers repeated_provider unrouted : StackError
  no_candidates repeated_candidate repeated_route mixed_families no_stacks wrong_agents : StackError

abbrev pub Checked : Type 0 → Type 0
Checked A = Result StackError A

pub record ModelDefinition : Type 0 where
  pub family : String
  pub routes : Dict String String

pub record StackCandidate : Type 0 where
  pub id : String
  pub model : String
  pub providers : List String

pub record Definition : Type 0 where
  pub name : String
  pub controller : List StackCandidate
  pub agents : Dict String (List StackCandidate)

pub record NormalizedStacks : Type 0 where
  pub default_stack : String
  pub models : Dict String ModelDefinition
  pub stacks : Dict String Definition

-- The two values of `schemaVersion`.
pub data Schema : Type 0 where
  version_1 version_2 : Schema

unfoldable pub is_candidate_id : String → Bool
is_candidate_id = matches_hex16 "oc-c-"

unfoldable pub exact : Json → List String → Checked (Dict String Json)
exact (obj fs) names = do guard (has_exactly names (entries fs)) wrong_fields; ok (entries fs)
exact _ names = err wrong_fields

unfoldable pub identifier : Json → Checked String
identifier (str s) = do guard (is_identifier s) bad_identifier; ok s
identifier _ = err bad_identifier

-- `except RoutingError`
unfoldable pub reraised : {A : Type 0} → Result RoutingError A → Checked A
reraised (ok a) = ok a
reraised (err e) = err (routing e)

unfoldable pub model_id : Json → Checked String
model_id value = reraised (validate_model_id value "model")

unfoldable pub stack_name : Json → Checked String
stack_name value = reraised (validate_stack_name value)

-- A `dict`, or a `list`, that is not empty.
unfoldable pub fields_of : StackError → Json → Checked (Dict String Json)
fields_of e (obj fs) = do guard (elim (entries fs) [ [] ↦ false | _ ∷ _ ↦ true ]) e; ok (entries fs)
fields_of e _ = err e

unfoldable pub items_of : StackError → Json → Checked (List Json)
items_of e (arr xs) = do guard (elim (items xs) [ [] ↦ false | _ ∷ _ ↦ true ]) e; ok (items xs)
items_of e _ = err e

abbrev pub by_key {ℓ} : {A : Type ℓ} → String × A → String × A → Bool
by_key a b = str_leb a.0 b.0

-- `for raw_provider, raw_upstream in raw_routes.items()`
unfoldable pub parse_routes : Dict String Json → Checked (Dict String String)
parse_routes [] = ok []
parse_routes ((p, v) ∷ d) = do
  provider ← identifier (str p)
  upstream ← model_id v
  rest ← parse_routes d
  ok ((provider, upstream) ∷ rest)

-- The entry's two fields before `family`, by schema version: its routes.
unfoldable pub parse_definition : Schema → Json → Checked (Dict String String × Json)
parse_definition version_1 raw = do
  d ← exact raw ("provider" ∷ "family" ∷ "upstream" ∷ [])
  provider ← identifier (item "provider" d)
  upstream ← model_id (item "upstream" d)
  ok ((provider, upstream) ∷ [], item "family" d)
parse_definition version_2 raw = do
  d ← exact raw ("family" ∷ "routes" ∷ [])
  raw_routes ← fields_of no_routes (item "routes" d)
  routes ← parse_routes raw_routes
  ok (routes, item "family" d)

unfoldable pub parse_model : Schema → String → Json → Checked (String × ModelDefinition)
parse_model schema raw_model raw = do
  model ← model_id (str raw_model)
  (routes, raw_family) ← parse_definition schema raw
  family ← identifier raw_family
  ok (model, record { family = family; routes = sorted by_key routes })

unfoldable pub parse_entries : Schema → Dict String Json → Checked (Dict String ModelDefinition)
parse_entries schema [] = ok []
parse_entries schema ((m, v) ∷ d) = do
  entry ← parse_model schema m v
  rest ← parse_entries schema d
  ok (entry ∷ rest)

unfoldable pub parse_models : Schema → Json → Checked (Dict String ModelDefinition)
parse_models schema value = do d ← fields_of no_models value; parse_entries schema d

unfoldable pub identifiers : List Json → Checked (List String)
identifiers [] = ok []
identifiers (v ∷ vs) = do p ← identifier v; rest ← identifiers vs; ok (p ∷ rest)

unfoldable pub model_ids : List Json → Checked (List String)
model_ids [] = ok []
model_ids (v ∷ vs) = do m ← model_id v; rest ← model_ids vs; ok (m ∷ rest)

-- `len(routes) == len(set(routes))`
unfoldable pub distinct_routes : Dict String String → Bool
distinct_routes [] = true
distinct_routes ((p, u) ∷ rs) = not (any (λ r. r.0 == p && r.1 == u) rs) && distinct_routes rs

-- `len(families) == 1`
unfoldable pub one_family : List String → Bool
one_family [] = false
one_family (f ∷ fs) = all (λ g. g == f) fs
