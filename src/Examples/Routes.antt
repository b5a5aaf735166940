-- ===== src/Examples/Routes.antt =====
-- The selection's theorems at two accounts of one pool.
use orichum.Base.{
  ◌⊎◌, String, ◌≢◌, ◌≤◌, length, Option, ◌==◌, if◌then◌else◌, false, ◌≡◌, refl, ◌↔◌, ℕ, pos, none,
  some, List, [], ◌∷◌, In, string_eq, nat_eq, option_eq, inl,
}
use orichum.Base.Dict.{lookup, insert, has_key}
use orichum.Base.Result.{ok, err}
use orichum.Base.Sort.{sorted}
use orichum.Base.Text.{str_leb, ◌<>◌, after_first}
use orichum.Account.{Account}
use orichum.Account.Registry.{find_account, matches_selector}
use orichum.RouteSelection.{
  Route, Credential, eligible_routes, route_config, admits, is_available, upstream_model, route_for,
  collect, ranks_from, rank_of, route_le, choose_new_session_route, choose_from, no_healthy,
  route_chain, is_healthy, top_tier, max_priority, gather, gather_pools, validate_route_credential,
}
use orichum.RouteSelection.Eligible.{Fits, route_to, eligible_routes_iff}
use orichum.RouteSelection.Choice.{IsChoice, IsIdle, choose_new_session_route_iff, no_healthy_iff}
use orichum.RouteSelection.Chain.{IsAlternate, route_chain_lem}
use orichum.Examples.{work, home, query}

abbrev routes : List Route
routes = route_to query "team" work "opus-4" ∷ route_to query "team" home "opus-4" ∷ []

config_ok : route_config query "team" ≡ ok ("anthropic" ∷ [], "anthropic" ∷ [])
unfolding route_config lookup string_eq
config_ok = refl

routes_ok : eligible_routes query "team" ≡ ok routes
unfolding eligible_routes route_config admits is_available upstream_model route_for collect
    ranks_from rank_of route_le sorted lookup insert has_key string_eq nat_eq option_eq str_leb ◌<>◌
routes_ok = refl

eligible_routes_iff_example : In (route_to query "team" work "opus-4") routes ↔ (
    (a : Account) × (u : String) × In a query.accounts
    × Fits query "team" ("anthropic" ∷ []) ("anthropic" ∷ []) a u
    × (route_to query "team" work "opus-4" ≡ route_to query "team" a u))
eligible_routes_iff_example =
    eligible_routes_iff query "team" ("anthropic" ∷ []) ("anthropic" ∷ []) routes config_ok
      routes_ok (route_to query "team" work "opus-4")

choose_new_session_route_iff_example :
    ((ordinal : ℕ) × (choose_new_session_route query ("team" ∷ []) [] (pos ordinal)
        ≡ ok (route_to query "team" work "opus-4")))
    ↔ IsChoice query [] ("team" ∷ []) (route_to query "team" work "opus-4")
choose_new_session_route_iff_example =
    choose_new_session_route_iff query [] ("team" ∷ []) (route_to query "team" work "opus-4")

abbrev both_down : List (String × String)
both_down = (work.id, "limited") ∷ (home.id, "limited") ∷ []

no_healthy_iff_example :
    (choose_new_session_route query ("team" ∷ []) both_down (pos 3) ≡ err no_healthy)
    ↔ ((p : String) → In p ("team" ∷ []) → IsIdle query both_down p)
no_healthy_iff_example = no_healthy_iff query both_down 3 ("team" ∷ [])

chain_ok : route_chain query ("team" ∷ []) [] (pos 0) (pos 1) ≡ ok routes
unfolding route_chain choose_new_session_route choose_from is_healthy top_tier max_priority gather
    gather_pools eligible_routes route_config admits is_available upstream_model route_for collect
    ranks_from rank_of route_le sorted lookup insert has_key string_eq nat_eq option_eq str_leb ◌<>◌
chain_ok = refl

abbrev one : ℕ
one = 1

route_chain_lem_example :
    (primary : Route) × (rest : List Route) × (routes ≡ primary ∷ rest)
    × (choose_new_session_route query ("team" ∷ []) [] (pos 0) ≡ ok primary)
    × (one ≤ 1)
    × (length rest ≤ one)
    × ((r : Route) → In r rest → IsAlternate query [] ("team" ∷ []) primary r)
    × ((r : Route) → IsAlternate query [] ("team" ∷ []) primary r → ((one ≡ 0) ⊎ (rest ≢ [])))
route_chain_lem_example = route_chain_lem query ("team" ∷ []) [] (pos 0) 1 routes chain_ok

abbrev auth_types : List (String × String)
auth_types = ("anthropic", "claude") ∷ []

-- The credential directory holds one file, of the first account.
abbrev resolve : String → String → Option Credential
resolve ref type =
    if ref == work.credential_ref
    then some (record { disabled = false; prefix = some work.routing_prefix; priority = 100 })
    else none

work-Fits : Fits query "team" ("anthropic" ∷ []) ("anthropic" ∷ []) work "opus-4"
unfolding lookup string_eq
work-Fits = record {
  active = refl;
  in_pool = refl;
  unlocked = inl refl;
  allowed = inl refl;
  in_pool_providers = inl refl;
  in_fallback = inl refl;
  upstream = refl;
  available = inl refl;
}

work_found : find_account query.accounts work.id ≡ ok work
unfolding find_account matches_selector string_eq
work_found = refl

type_known : lookup work.provider auth_types ≡ some "claude"
unfolding lookup string_eq
type_known = refl

credential_ok :
    validate_route_credential query.accounts auth_types resolve
      (route_to query "team" work "opus-4")
    ≡ ok tt
unfolding validate_route_credential find_account matches_selector lookup after_first string_eq
    nat_eq option_eq ◌<>◌
credential_ok = refl
