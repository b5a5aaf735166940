-- ===== src/StackCatalog.antt =====
-- integrations/common/stack_catalog.py: the live catalogue's models, by family, provider and model, from
-- the parsed answer on. `fetch_live_catalog`, which reads it from a socket, is not modelled.
pub mod Classes
pub mod Projection
use orichum.Base.{
  ℕ, String, Bool, true, false, not, ◌&&◌, ◌||◌, Option, none, some, List, [], ◌∷◌, map, ◌==◌,
  nat_eq, string_eq, option_eq, contains, if◌then◌else◌, all, any, select, Eq,
}
use Prim.Native.Char.{code}
use orichum.Base.Dict.{Dict, keys, values, lookup, insert}
use orichum.Base.Result.{Result, ok, err, ◌>>=◌, ◌>>◌, guard}
use orichum.Base.Sort.{sorted}
use orichum.Base.Text.{strip_prefix, str_leb}
use orichum.Json.{Json, null, str, arr, obj, items, entries}
use orichum.Account.{Account}
use orichum.ModelRouting.{RoutingError, validate_model_id, from_keys}
use orichum.ModelStacks.{ModelDefinition}

pub data CatalogError : Type 0 where
  not_object bad_kind not_array bad_entry : CatalogError
  bad_model : RoutingError → CatalogError

abbrev pub Checked : Type 0 → Type 0
Checked A = Result CatalogError A

pub record LiveModelChoice : Type 0 where
  pub family : String
  pub provider : String
  pub upstream : String
  pub account_ids : List String
  pub account_names : List String

pub record UnclassifiedModel : Type 0 where
  pub provider : String
  pub upstream : String
  pub account_names : List String

pub record LiveCatalog : Type 0 where
  pub choices : List LiveModelChoice
  pub unclassified : List UnclassifiedModel

-- The one item of the set of the list's items.
unfoldable pub unique : List String → Option String
unique [] = none
unique (f ∷ fs) = if all (λ g. g == f) fs then some f else none

unfoldable pub exact_families : String → String → Dict String ModelDefinition → List String
exact_families provider upstream known =
    map (λ m. m.family) (select (λ m. lookup provider m.routes == some upstream) (values known))

-- `value.get(name)`, where `value` is a mapping.
unfoldable pub member : String → Json → Json
member name (obj fs) = elim (lookup name (entries fs)) [ none ↦ null | some v ↦ v ]
member name _ = null

-- `isinstance(prefix, str) and upstream.startswith(prefix)`
unfoldable pub is_start : String → Json → Bool
is_start upstream (str p) = elim (strip_prefix p upstream) [ none ↦ false | some rest ↦ true ]
is_start upstream _ = false

unfoldable pub has_start : String → Json → Bool
has_start upstream (arr xs) = any (is_start upstream) (items xs)
has_start upstream _ = false

unfoldable pub matching_families : String → Json → List String
matching_families upstream (obj fs) = keys (select (λ e. has_start upstream e.1) (entries fs))
matching_families upstream _ = []

unfoldable pub classify_model : String → String → Dict String ModelDefinition → Json → Option String
classify_model provider upstream known document = elim (exact_families provider upstream known) [
  | f ∷ fs ↦ unique (f ∷ fs)
  | [] ↦ unique (
      matching_families upstream
        (member "familyPrefixes" (member provider (member "providers" document))))
]

unfoldable pub entry_ids : List Json → Checked (List String)
entry_ids [] = ok []
entry_ids (obj fs ∷ vs) = do
  id ← elim (lookup "id" (entries fs)) [ some (str s) ↦ ok s | _ ↦ err bad_entry ]
  model ← elim (validate_model_id (str id) "live model") [ ok m ↦ ok m | err e ↦ err (bad_model e) ]
  rest ← entry_ids vs
  ok (model ∷ rest)
entry_ids (_ ∷ vs) = err bad_entry

unfoldable pub catalog_ids : Json → Checked (List String)
catalog_ids (obj fs) = do
  guard
      (elim (lookup "object" (entries fs)) [ none ↦ true | some (str s) ↦ s == "list" | _ ↦ false ])
      bad_kind
  data_ ← elim (lookup "data" (entries fs)) [ some (arr xs) ↦ ok (items xs) | _ ↦ err not_array ]
  found ← entry_ids data_
  ok (from_keys [] found)
catalog_ids _ = err not_object

-- `model_id.partition("/")`, where it has a slash.
unfoldable pub split_slash : String → Option (String × String)
split_slash String.[] = none
split_slash (String.◌∷◌ c s) =
    let rest = split_slash s in
    if code c == b'/'
    then some (String.[], s)
    else elim rest [ none ↦ none | some r ↦ some (String.◌∷◌ c r.0, r.1) ]

unfoldable pub active_by_prefix : Dict String Account → List Account → Dict String Account
active_by_prefix d [] = d
active_by_prefix d (a ∷ accounts) =
    active_by_prefix (if a.state == "active" then insert a.routing_prefix a d else d) accounts

-- `(provider, family, upstream)` and `(provider, upstream)`
abbrev pub ChoiceKey : Type 0
ChoiceKey = String × String × String

abbrev pub PlainKey : Type 0
PlainKey = String × String

ChoiceKey-discrete : Discrete ChoiceKey
ChoiceKey-discrete = hlevel string_eq.dec

PlainKey-discrete : Discrete PlainKey
PlainKey-discrete = hlevel string_eq.dec

instance unfoldable pub choice_key_eq : Eq ChoiceKey
unfolding ChoiceKey-discrete
choice_key_eq = record { dec = ChoiceKey-discrete }

instance unfoldable pub plain_key_eq : Eq PlainKey
unfolding PlainKey-discrete
plain_key_eq = record { dec = PlainKey-discrete }

abbrev pub Groups : Type 0 → Type 0
Groups K = Dict K (Dict String Account)

module _ {K : Type 0} ⦃e : Eq K⦄ where
  -- `groups.setdefault(key, {})[account.id] = account`
  unfoldable pub add_to : K → Account → Groups K → Groups K
  add_to key a groups =
      insert key (insert a.id a (elim (lookup key groups) [ none ↦ [] | some g ↦ g ])) groups

abbrev pub Placed : Type 0
Placed = Groups ChoiceKey × Groups PlainKey

module _ (active : Dict String Account) (known : Dict String ModelDefinition)
    (document : Json) where
  -- The loop's body.
  unfoldable pub place : String → Placed → Placed
  place model_id (choices, unclassified) = elim (split_slash model_id) [
    | none ↦ (choices, unclassified)
    | some (prefix, upstream) ↦ elim (lookup prefix active) [
      | none ↦ (choices, unclassified)
      | some a ↦ elim (classify_model a.provider upstream known document) [
        | none ↦ (choices, add_to (a.provider, upstream) a unclassified)
        | some family ↦ (add_to (a.provider, family, upstream) a choices, unclassified)
      ]
    ]
  ]

  unfoldable pub place_all : List String → Placed → Placed
  place_all [] placed = placed
  place_all (m ∷ ms) placed = place_all ms (place m placed)

unfoldable pub account_le : Account → Account → Bool
account_le a b = if a.name == b.name then str_leb a.id b.id else str_leb a.name b.name

-- The orders of tuples.
unfoldable pub plain_le : PlainKey → PlainKey → Bool
plain_le (p, u) (q, v) = if p == q then str_leb u v else str_leb p q

unfoldable pub choice_le : ChoiceKey → ChoiceKey → Bool
choice_le (p, f, u) (q, g, v) = if p == q then plain_le (f, u) (g, v) else str_leb p q

unfoldable pub in_order : Dict String Account → List Account
in_order grouped = sorted account_le (values grouped)

unfoldable pub choice_of : ChoiceKey × Dict String Account → LiveModelChoice
choice_of ((provider, family, upstream), grouped) = record {
  family = family;
  provider = provider;
  upstream = upstream;
  account_ids = map (λ a. a.id) (in_order grouped);
  account_names = map (λ a. a.name) (in_order grouped);
}

-- The reason is the same for all.
unfoldable pub unclassified_of : PlainKey × Dict String Account → UnclassifiedModel
unclassified_of ((provider, upstream), grouped) = record {
  provider = provider;
  upstream = upstream;
  account_names = map (λ a. a.name) (in_order grouped);
}

unfoldable pub project_live_catalog :
    Json → List Account → Dict String ModelDefinition → Json → Checked LiveCatalog
project_live_catalog raw accounts known document = do
  ids ← catalog_ids raw
  let placed = place_all (active_by_prefix [] accounts) known document ids ([], [])
  ok (record {
    choices = map choice_of (sorted (λ a b. choice_le a.0 b.0) placed.0);
    unclassified = map unclassified_of (sorted (λ a b. plain_le a.0 b.0) placed.1);
  })
