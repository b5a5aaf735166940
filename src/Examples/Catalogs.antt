-- ===== src/Examples/Catalogs.antt =====
-- A live catalogue with one model, of one account.
use orichum.Base.{◌≡◌, inl, refl, List, [], ◌∷◌, String, string_eq, nat_eq, option_eq}
use orichum.Base.Dict.{Dict, lookup, insert}
use orichum.Base.Result.{ok}
use orichum.Base.Sort.{sorted, insert_sorted}
use orichum.Base.Text.{matches, is_alnum, is_digit, every, size}
use orichum.Json.{Json, null, str, array, object}
use orichum.Account.{Account}
use orichum.ModelRouting.{validate_model_id, is_model_id, from_keys}
use orichum.ModelStacks.{ModelDefinition}
use orichum.StackCatalog.{
  LiveModelChoice, LiveCatalog, unique, exact_families, classify_model, entry_ids, catalog_ids,
  split_slash, active_by_prefix, add_to, place, place_all, in_order, choice_of,
  project_live_catalog, choice_key_eq, plain_key_eq,
}
use orichum.StackCatalog.Projection.{IsBehind, project_live_catalog-IsBehind}
use orichum.Examples.{work}

abbrev known : Dict String ModelDefinition
known = ("opus", record { family = "claude"; routes = ("anthropic", "opus-4") ∷ [] }) ∷ []

abbrev answer : Json
answer =
    object (("data", array (object (("id", str "oc-r-0123456789abcdef/opus-4") ∷ []) ∷ [])) ∷ [])

abbrev choice : LiveModelChoice
choice = record {
  family = "claude";
  provider = "anthropic";
  upstream = "opus-4";
  account_ids = work.id ∷ [];
  account_names = work.name ∷ [];
}

abbrev catalog : LiveCatalog
catalog = record { choices = choice ∷ []; unclassified = [] }

projected : project_live_catalog answer (work ∷ []) known null ≡ ok catalog
unfolding project_live_catalog catalog_ids entry_ids validate_model_id is_model_id matches is_alnum
    is_digit every size from_keys active_by_prefix split_slash classify_model exact_families unique
    lookup insert place place_all add_to in_order choice_of sorted insert_sorted choice_key_eq
    plain_key_eq string_eq nat_eq option_eq
projected = refl

project_live_catalog-IsBehind_example :
    (ids : List String) × (catalog_ids answer ≡ ok ids)
    × (a : Account) × (a.id ≡ work.id)
    × IsBehind (work ∷ []) known null ids "anthropic" "claude" "opus-4" a
project_live_catalog-IsBehind_example =
    project_live_catalog-IsBehind (work ∷ []) answer known null catalog choice work.id projected
      (inl refl) (inl refl)
