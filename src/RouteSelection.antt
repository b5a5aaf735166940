-- ===== src/RouteSelection.antt =====
-- integrations/common/route_selection.py: which account and provider serve a logical model.
pub mod Eligible
pub mod Tier
pub mod Choice
pub mod Chain
pub mod Binding
use orichum.Base.{
  ℕ, zero, suc, ◌+◌, ◌-◌, ◌%◌, String, Bool, true, false, not, ◌&&◌, ◌||◌, Option, none, some, List,
  [], ◌∷◌, ◌++◌, map, ℤ, pos, negsuc, leb, ltb, ◌==◌, nat_eq, string_eq, option_eq, contains,
  length, get_elem?, take, select, if◌then◌else◌,
}
use orichum.Base.Dict.{Dict, lookup, has_key, insert}
use orichum.Base.Result.{Result, ok, err, ◌>>=◌, ◌>>◌, guard}
use orichum.Base.Sort.{sorted}
use orichum.Base.Text.{◌<>◌, str_leb, after_first}
use orichum.Account.{Account, AccountError}
use orichum.Account.Registry.{find_account}

pub data RouteError : Type 0 where
  wrong_family incomplete bad_ordinal no_healthy too_many_alternates : RouteError
  provider_incomplete not_bound no_credential inactive_credential : RouteError
  account_error : AccountError → RouteError

abbrev pub Routed : Type 0 → Type 0
Routed A = Result RouteError A

pub record Route : Type 0 where
  pub account_id : String
  pub provider : String
  pub family : String
  pub logical_model : String
  pub upstream_model : String
  pub claudex_profile : String
  pub priority : ℕ
  pub pool : String

-- The parts of the configuration document that are read here: the families of the models, if the
-- document has them, the providers of each account pool, and the fallback order of each family.
pub record Config : Type 0 where
  pub models : Option (Dict String String)
  pub account_pools : Dict String (List String)
  pub fallback_routes : Dict String (List String)

-- `{provider: rank for rank, provider in enumerate(fallback)}`
unfoldable pub ranks_from : ℕ → List String → Dict String ℕ → Dict String ℕ
ranks_from n [] d = d
ranks_from n (p ∷ ps) d = ranks_from (n + 1) ps (insert p n d)

-- `rank_of` is read only at providers that have a rank.
unfoldable pub rank_of : Dict String ℕ → String → ℕ
rank_of ranks p = elim (lookup p ranks) [ none ↦ 0 | some n ↦ n ]

-- The order of the sort key `(-priority, fallback rank, account ID)`.
unfoldable pub route_le : Dict String ℕ → Route → Route → Bool
route_le ranks a b =
    if ltb b.priority a.priority
    then true
    else if ltb a.priority b.priority
    then false
    else if ltb (rank_of ranks a.provider) (rank_of ranks b.provider)
    then true
    else if ltb (rank_of ranks b.provider) (rank_of ranks a.provider)
    then false
    else str_leb a.account_id b.account_id

-- `health.get(account_id, "healthy") == "healthy"`
unfoldable pub is_healthy : Dict String String → Route → Bool
is_healthy health r = elim (lookup r.account_id health) [ none ↦ true | some h ↦ h == "healthy" ]

-- `max(route.priority for route in healthy)`
unfoldable pub max_priority : List Route → ℕ
max_priority [] = 0
max_priority (r ∷ rs) = let m = max_priority rs in if leb m r.priority then r.priority else m

unfoldable pub top_tier : List Route → List Route
top_tier healthy = select (λ r. r.priority == max_priority healthy) healthy

-- The inner loop of `route_chain`: the candidates and the accounts seen.
unfoldable pub gather :
    Dict String String → List Route → List Route × List String → List Route × List String
gather health [] s = s
gather health (r ∷ rs) (candidates, seen) = gather health rs (
    if not (contains seen r.account_id) && is_healthy health r
    then (candidates ++ r ∷ [], r.account_id ∷ seen)
    else (candidates, seen))

-- The arguments that every selection shares. `digest` is the first 16 hexadecimal digits of the
-- SHA-256 of `account ID \0 logical model`.
pub record Query : Type 0 where
  pub accounts : List Account
  pub family : String
  pub logical_model : String
  pub config : Config
  pub allowed_providers : List String
  pub locked_account_id : Option String
  pub upstream_by_provider : Dict String String
  pub available_models : Option (List String)
  pub digest : String → String → String

module _ (q : Query) where
  -- The `try` block: the family of the model, and the two lists of providers.
  unfoldable pub route_config : String → Routed (List String × List String)
  route_config pool = do
    let wrong : Bool = elim q.config.models [
      | none ↦ false
      | some models ↦ elim (lookup q.logical_model models) [
        | none ↦ false
        | some configured ↦ not (configured == q.family)
      ]
    ]
    guard (not wrong) wrong_family
    providers ← elim (lookup pool q.config.account_pools) [ none ↦ err incomplete | some l ↦ ok l ]
    fallback ← elim (lookup q.family q.config.fallback_routes) [
      | none ↦ err incomplete
      | some l ↦ ok l
    ]
    ok (providers, fallback)

  -- The `continue` conditions of the loop, negated.
  unfoldable pub admits : String → List String → Dict String ℕ → Account → Bool
  admits pool providers ranks a =
      a.state == "active"
      && a.pool == pool
      && elim q.locked_account_id [ none ↦ true | some id ↦ a.id == id ]
      && contains q.allowed_providers a.provider
      && contains providers a.provider
      && has_key a.provider ranks
      && has_key a.provider q.upstream_by_provider

  unfoldable pub upstream_model : Account → String
  upstream_model a =
      a.routing_prefix
      <> "/"
      <> elim (lookup a.provider q.upstream_by_provider) [ none ↦ "" | some u ↦ u ]

  unfoldable pub route_for : String → Account → Route
  route_for pool a = record {
    account_id = a.id;
    provider = a.provider;
    family = q.family;
    logical_model = q.logical_model;
    upstream_model = upstream_model a;
    claudex_profile = "ocp-" <> q.digest a.id q.logical_model;
    priority = a.priority;
    pool = pool;
  }

  unfoldable pub is_available : Account → Bool
  is_available a = elim q.available_models [
    | none ↦ true
    | some models ↦ contains models (upstream_model a)
  ]

  -- The loop over the accounts.
  unfoldable pub collect : String → List String → Dict String ℕ → List Account → List Route
  collect pool providers ranks [] = []
  collect pool providers ranks (a ∷ rest) =
      if admits pool providers ranks a && is_available a
      then route_for pool a ∷ collect pool providers ranks rest
      else collect pool providers ranks rest

  unfoldable pub eligible_routes : String → Routed (List Route)
  eligible_routes pool = do
    (providers, fallback) ← route_config pool
    let ranks = ranks_from 0 fallback []
    ok (sorted (route_le ranks) (collect pool providers ranks q.accounts))

  -- The loop over the pools.
  unfoldable pub choose_from : Dict String String → ℕ → List String → Routed Route
  choose_from health ordinal [] = err no_healthy
  choose_from health ordinal (pool ∷ pools) = do
    routes ← eligible_routes pool
    let healthy = select (is_healthy health) routes
    let tier = top_tier healthy
    let rest = choose_from health ordinal pools
    elim healthy [
      | [] ↦ rest
      | r ∷ rs ↦ elim (get_elem? tier (ordinal % length tier)) [
        | none ↦ err no_healthy
        | some c ↦ ok c
      ]
    ]

  unfoldable pub choose_new_session_route : List String → Dict String String → ℤ → Routed Route
  choose_new_session_route pools health (negsuc n) = err bad_ordinal
  choose_new_session_route pools health (pos n) = choose_from health n pools

  unfoldable pub gather_pools :
      Dict String String
      → List String
      → List Route × List String
      → Routed (List Route × List String)
  gather_pools health [] s = ok s
  gather_pools health (pool ∷ pools) s = do
    routes ← eligible_routes pool
    gather_pools health pools (gather health routes s)

  unfoldable pub route_chain : List String → Dict String String → ℤ → ℤ → Routed (List Route)
  route_chain pools health ordinal (negsuc n) = err too_many_alternates
  route_chain pools health ordinal (pos alternates) = do
    guard (leb alternates 1) too_many_alternates
    primary ← choose_new_session_route pools health ordinal
    (candidates, seen) ← gather_pools health pools ([], primary.account_id ∷ [])
    ok (primary ∷ take alternates candidates)

-- What `resolve_credential_ref` returns for a credential file.
pub record Credential : Type 0 where
  pub disabled : Bool
  pub prefix : Option String
  pub priority : ℕ

-- `resolve` reads the credential directory; `auth_type` is the provider document's entry.
module _ (accounts : List Account) (auth_type : Dict String String)
    (resolve : String → String → Option Credential) where
  unfoldable pub validate_route_credential : Route → Routed (Unit {0})
  validate_route_credential route = do
    account ← elim (find_account accounts route.account_id) [
      | ok a ↦ ok a
      | err e ↦ err (account_error e)
    ]
    expected ← elim (lookup account.provider auth_type) [
      | none ↦ err provider_incomplete
      | some t ↦ ok t
    ]
    let tail : String = elim (after_first b'/' route.upstream_model) [
      | none ↦ route.upstream_model
      | some t ↦ t
    ]
    guard
        (account.state == "active"
          && account.provider == route.provider
          && account.pool == route.pool
          && route.upstream_model == (account.routing_prefix <> "/" <> tail))
        not_bound
    credential ← elim (resolve account.credential_ref expected) [
      | none ↦ err no_credential
      | some c ↦ ok c
    ]
    guard
        (not credential.disabled
          && credential.prefix == some account.routing_prefix
          && credential.priority == account.priority)
        inactive_credential
