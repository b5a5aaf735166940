-- ===== src/RouteSelection/Eligible.antt =====
-- The routes of one pool: which they are, and their order.
use orichum.Base.{
  ℕ, ◌+◌, String, Bool, true, false, ◌&&◌, ◌||◌, none, some, List, [], ◌∷◌, ◌≡◌, ◌↔◌, ◌⊎◌, inl, inr,
  refl, ◌∙◌, ◌==◌, string_eq, contains, In, Bool-cases, Option-cases, arith, if◌then◌else◌,
  contains-In, In-contains, ◌≢◌,
}
use orichum.Base.Dict.{Dict, lookup, has_key, insert}
use orichum.Base.Result.{ok}
use orichum.Base.Sort.{sorted, IsSorted, sorted-In, In-sorted, sorted-IsSorted}
use orichum.Base.Text.{str_leb-total, str_leb_trans, ◌<>◌}
use orichum.Account.{Account}
use orichum.RouteSelection.{
  Route, Query, ranks_from, route_le, route_config, admits, upstream_model, route_for, is_available,
  collect, eligible_routes,
}

has_key-lookup :
    {V : Type 0} (k : String) (d : Dict String V) → has_key k d ≡ true → lookup k d ≢ none
unfolding has_key lookup
has_key-lookup k [] h = cc
has_key-lookup k ((j, v) ∷ d) h = ground (arith, has_key-lookup k d)

lookup-has_key :
    {V : Type 0} (k : String) (v : V) (d : Dict String V) → lookup k d ≡ some v → has_key k d ≡ true
unfolding has_key lookup
lookup-has_key k v [] h = cc
lookup-has_key k v ((j, w) ∷ d) h = ground (arith, lookup-has_key k v d)

has_key-nil : (k : String) → has_key {V = ℕ} k [] ≡ false
unfolding has_key
has_key-nil k = refl

has_key-insert :
    (j k : String) (v : ℕ) (d : Dict String ℕ)
    → has_key j (insert k v d) ≡ (if j == k then true else has_key j d)
unfolding has_key insert
has_key-insert j k v [] = refl
has_key-insert j k v ((i, w) ∷ d) = ground (arith, has_key-insert j k v d)

-- A provider has a rank exactly when it stands in the fallback list.
has_key-ranks_from :
    (p : String) (n : ℕ) (ps : List String) (d : Dict String ℕ)
    → has_key p (ranks_from n ps d) ≡ (contains ps p || has_key p d)
unfolding ranks_from
has_key-ranks_from p n [] d = refl
has_key-ranks_from p n (x ∷ ps) d =
    ground (arith, has_key-ranks_from p (n + 1) ps (insert x n d), has_key-insert p x n d)

route_le-total :
    (d : Dict String ℕ) (a b : Route) → (route_le d a b ≡ true) ⊎ (route_le d b a ≡ true)
unfolding route_le
route_le-total d a b = ground (arith, str_leb-total a.account_id b.account_id)

route_le_trans :
    (d : Dict String ℕ) (a b c : Route)
    → route_le d a b ≡ true
    → route_le d b c ≡ true
    → route_le d a c ≡ true
unfolding route_le
route_le_trans d a b c p q = ground (arith, str_leb_trans a.account_id b.account_id c.account_id)

-- What an account has to be for its route in a pool to be eligible.
pub record Fits (q : Query) (pool : String) (providers fallback : List String) (a : Account)
    (u : String) : Type 0 where
  pub active : a.state ≡ "active"
  pub in_pool : a.pool ≡ pool
  pub unlocked : (q.locked_account_id ≡ none) ⊎ (q.locked_account_id ≡ some a.id)
  pub allowed : In a.provider q.allowed_providers
  pub in_pool_providers : In a.provider providers
  pub in_fallback : In a.provider fallback
  pub upstream : lookup a.provider q.upstream_by_provider ≡ some u
  pub available :
      (q.available_models ≡ none)
      ⊎ ((ms : List String) × (q.available_models ≡ some ms) × In (a.routing_prefix <> "/" <> u) ms)

-- The route that an account with upstream model `u` gives.
abbrev pub route_to : Query → String → Account → String → Route
route_to q pool a u = record {
  account_id = a.id;
  provider = a.provider;
  family = q.family;
  logical_model = q.logical_model;
  upstream_model = a.routing_prefix <> "/" <> u;
  claudex_profile = "ocp-" <> q.digest a.id q.logical_model;
  priority = a.priority;
  pool = pool;
}

module _ (q : Query) (pool : String) (providers fallback : List String) where
  abbrev ranks : Dict String ℕ
  ranks = ranks_from 0 fallback []

  abbrev passes : Account → Bool
  passes a = admits q pool providers ranks a && is_available q a

  available_of :
      (a : Account) (u : String)
      → lookup a.provider q.upstream_by_provider ≡ some u
      → is_available q a ≡ true
      → (q.available_models ≡ none)
        ⊎ ((ms : List String) × (q.available_models ≡ some ms)
            × In (a.routing_prefix <> "/" <> u) ms)
  unfolding is_available upstream_model
  available_of a u e h = elim (Option-cases q.available_models) [
    | inl free ↦ inl free
    | inr (ms, given) ↦
        inr (ms, given, ground (arith, given, e, contains-In ms (a.routing_prefix <> "/" <> u)))
  ]

  passes-Fits :
      (a : Account)
      → passes a ≡ true
      → (u : String) × Fits q pool providers fallback a u
        × (route_for q pool a ≡ route_to q pool a u)
  unfolding admits route_for upstream_model
  passes-Fits a h = elim (Option-cases (lookup a.provider q.upstream_by_provider)) [
    | inl e ↦ ground (arith, e, has_key-lookup a.provider q.upstream_by_provider)
    | inr (u, e) ↦ (
      u,
      record {
        active = ground arith;
        in_pool = ground arith;
        unlocked = ground arith;
        allowed = contains-In q.allowed_providers a.provider (ground arith);
        in_pool_providers = contains-In providers a.provider (ground arith);
        in_fallback =
            contains-In fallback a.provider
              (ground (arith, has_key-ranks_from a.provider 0 fallback [], no_ranks));
        upstream = e;
        available = available_of a u e (ground arith);
      },
      ground (arith, e),
    )
  ]
    where
      no_ranks : has_key {V = ℕ} a.provider [] ≡ false
      no_ranks = has_key-nil a.provider

  Fits-available :
      (a : Account) (u : String) → Fits q pool providers fallback a u → is_available q a ≡ true
  unfolding is_available upstream_model
  Fits-available a u f = elim f.available [
    | inl e ↦ rw e
    | inr (ms, e, m) ↦ rw (e, f.upstream) (In-contains ms _ m)
  ]

  Fits-passes :
      (a : Account) (u : String)
      → Fits q pool providers fallback a u
      → (passes a ≡ true) × (route_for q pool a ≡ route_to q pool a u)
  unfolding admits route_for upstream_model
  Fits-passes a u f = ground (
    arith,
    f.upstream,
    Fits-available a u f,
    has_key-ranks_from a.provider 0 fallback [],
    lookup-has_key a.provider u q.upstream_by_provider,
    In-contains q.allowed_providers a.provider f.allowed,
    In-contains providers a.provider f.in_pool_providers,
    In-contains fallback a.provider f.in_fallback,
  )

  collect-In :
      (r : Route) (as' : List Account)
      → In r (collect q pool providers ranks as')
      → (a : Account) × In a as' × (passes a ≡ true) × (r ≡ route_for q pool a)
  unfolding collect
  collect-In r [] h = elim h [ ]
  collect-In r (a ∷ rest) h = elim (Bool-cases (passes a)) [
    | inl e ↦
        elim (let h' : In r (route_for q pool a ∷ collect q pool providers ranks rest) =
            rw e at h in
          h') [
            | inl p ↦ (a, inl refl, e, p)
            | inr m ↦ let (b, s, t, p) = collect-In r rest m in (b, inr s, t, p)
          ]
    | inr e ↦ let (b, s, t, p) = collect-In r rest (rw e at h) in (b, inr s, t, p)
  ]

  In-collect :
      (a : Account) (as' : List Account)
      → In a as'
      → passes a ≡ true
      → In (route_for q pool a) (collect q pool providers ranks as')
  unfolding collect
  In-collect a [] h t = elim h [ ]
  In-collect a (b ∷ rest) (inl p) t = rw (← p, t) (inl refl)
  In-collect a (b ∷ rest) (inr m) t = elim (Bool-cases (passes b)) [
    | inl e ↦ rw e (inr (In-collect a rest m t))
    | inr e ↦ rw e (In-collect a rest m t)
  ]

module _ (q : Query) (pool : String) where
  -- Where the configuration has the pool and the family, the routes of the pool are those of its
  -- fitting accounts, no more and no fewer.
  pub eligible_routes_iff :
      (providers fallback : List String) (rs : List Route)
      → route_config q pool ≡ ok (providers, fallback)
      → eligible_routes q pool ≡ ok rs
      → (r : Route)
      → In r rs ↔ (
          (a : Account) × (u : String) × In a q.accounts
          × Fits q pool providers fallback a u
          × (r ≡ route_to q pool a u))
  unfolding eligible_routes
  eligible_routes_iff providers fallback rs c h r =
      let le = route_le (ranks_from 0 fallback []) in
      let found = collect q pool providers (ranks_from 0 fallback []) q.accounts in
      let e : sorted le found ≡ rs = ground (arith, c) in
      (
        λ m.
            let (a, stands, t, p) =
              collect-In q pool providers fallback r q.accounts
                (sorted-In le r found (rw (← e) at m)) in
            let (u, f, s) = passes-Fits q pool providers fallback a t in (a, u, stands, f, p ∙ s),
        λ (a, u, stands, f, p).
            let (t, s) = Fits-passes q pool providers fallback a u f in
            rw (← e, p, ← s)
              (In-sorted le _ found (In-collect q pool providers fallback a q.accounts stands t)),
      )

  -- Where the configuration has the pool and the family, the routes of the pool stand by
  -- descending priority, then by fallback rank, then by account ID.
  pub eligible_routes-IsSorted :
      (providers fallback : List String) (rs : List Route)
      → route_config q pool ≡ ok (providers, fallback)
      → eligible_routes q pool ≡ ok rs
      → IsSorted (route_le (ranks_from 0 fallback [])) rs
  unfolding eligible_routes
  eligible_routes-IsSorted providers fallback rs c h =
      let le = route_le (ranks_from 0 fallback []) in
      let found = collect q pool providers (ranks_from 0 fallback []) q.accounts in
      let e : sorted le found ≡ rs = ground (arith, c) in
      rw (← e) (
        sorted-IsSorted le (route_le-total (ranks_from 0 fallback []))
          (route_le_trans (ranks_from 0 fallback [])) found)
