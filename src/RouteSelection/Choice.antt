-- ===== src/RouteSelection/Choice.antt =====
-- The route of a new session: from the first pool with a healthy route, in turn among the routes
-- of the highest priority there.
use orichum.Base.{
  ℕ, ◌%◌, ◌≤◌, String, true, false, none, some, List, [], ◌∷◌, ◌++◌, ◌≡◌, ◌↔◌, ◌≢◌, inl, inr, refl,
  sym, ap, ◌∙◌, string_eq, nat_eq, In, select, In-select, select-In, Bool-cases, First-cases, arith,
  length, get_elem?, get_elem?-lt, In-get_elem?, pos,
}
use native.Mathlib.Nat.{mod-lt, mod-eq_of_lt}
use orichum.Base.Dict.{Dict}
use orichum.Base.Result.{ok, err, Result-cases}
use orichum.RouteSelection.{
  Route, RouteError, no_healthy, Query, Routed, route_config, eligible_routes, is_healthy, top_tier,
  choose_from, choose_new_session_route,
}
use orichum.RouteSelection.Tier.{top_tier-In, In-top_tier, tier_pos}

-- No route of the pool is healthy, and asking for them raises nothing.
abbrev pub IsIdle : Query → Dict String String → String → Type 0
IsIdle q health pool =
    (rs : List Route) × (eligible_routes q pool ≡ ok rs)
    × ((s : Route) → In s rs → is_healthy health s ≡ false)

-- What the chosen route is.
pub record IsChoice (q : Query) (health : Dict String String) (pools : List String) (r : Route)
    : Type 0 where
  pub before : List String
  pub pool : String
  pub after : List String
  pub split : pools ≡ before ++ pool ∷ after
  pub idle_before : (p : String) → In p before → IsIdle q health p
  pub routes : List Route
  pub eligible : eligible_routes q pool ≡ ok routes
  pub stands : In r routes
  pub healthy : is_healthy health r ≡ true
  pub highest : (s : Route) → In s routes → is_healthy health s ≡ true → s.priority ≤ r.priority

abbrev pick : ℕ → List Route → Routed Route
pick ordinal healthy = elim (get_elem? (top_tier healthy) (ordinal % length (top_tier healthy))) [
  | none ↦ err no_healthy
  | some c ↦ ok c
]

-- The turn falls on a healthy route of the highest priority.
pick-eq-ok :
    (ordinal : ℕ) (s : Route) (ss : List Route)
    → (c : Route) × (pick ordinal (s ∷ ss) ≡ ok c)
      × In c (s ∷ ss)
      × ((t : Route) → In t (s ∷ ss) → t.priority ≤ c.priority)
pick-eq-ok ordinal s ss =
    let (c, e, m) =
      get_elem?-lt (top_tier (s ∷ ss)) (ordinal % length (top_tier (s ∷ ss)))
        (mod-lt ordinal (tier_pos s ss)) in
    let (stands, top) = top_tier-In c (s ∷ ss) m in (c, rw (e, pick), stands, top)

none_healthy :
    (health : Dict String String) (routes : List Route)
    → select (is_healthy health) routes ≡ []
    → (s : Route) → In s routes
    → is_healthy health s ≡ false
none_healthy health routes e s m = elim (Bool-cases (is_healthy health s)) [
  | inl t ↦ absurd (rw e at (select-In (is_healthy health) s routes m t))
  | inr f ↦ f
]

all_unhealthy :
    (health : Dict String String) (routes : List Route)
    → ((s : Route) → In s routes → is_healthy health s ≡ false)
    → select (is_healthy health) routes ≡ []
all_unhealthy health [] f = refl
all_unhealthy health (s ∷ rs) f = rw (f s (inl refl)) (all_unhealthy health rs (λ t m. f t (inr m)))

module _ (q : Query) (health : Dict String String) (ordinal : ℕ) where
  choose_from-idle :
      (pool : String) (pools : List String) (routes : List Route)
      → eligible_routes q pool ≡ ok routes
      → select (is_healthy health) routes ≡ []
      → choose_from q health ordinal (pool ∷ pools) ≡ choose_from q health ordinal pools
  unfolding choose_from
  choose_from-idle pool pools routes e f = ground (arith, e, f)

  choose_from-pick :
      (pool : String) (pools : List String) (routes : List Route) (s : Route) (ss : List Route)
      → eligible_routes q pool ≡ ok routes
      → select (is_healthy health) routes ≡ s ∷ ss
      → choose_from q health ordinal (pool ∷ pools) ≡ pick ordinal (s ∷ ss)
  unfolding choose_from
  choose_from-pick pool pools routes s ss e f = ground (arith, e, f)

  choose_from-raise :
      (pool : String) (pools : List String) (x : RouteError)
      → eligible_routes q pool ≡ err x
      → choose_from q health ordinal (pool ∷ pools) ≡ err x
  unfolding choose_from
  choose_from-raise pool pools x e = rw e

  later :
      (pool : String) (pools : List String) (r : Route) (routes : List Route)
      → eligible_routes q pool ≡ ok routes
      → select (is_healthy health) routes ≡ []
      → IsChoice q health pools r
      → IsChoice q health (pool ∷ pools) r
  later pool pools r routes e f c = record {
    before = pool ∷ c.before;
    pool = c.pool;
    after = c.after;
    split = ap (λ l. pool ∷ l) c.split;
    idle_before = λ p m. elim m [
      | inl same ↦ rw same (routes, e, none_healthy health routes f)
      | inr rest ↦ c.idle_before p rest
    ];
    routes = c.routes;
    eligible = c.eligible;
    stands = c.stands;
    healthy = c.healthy;
    highest = c.highest;
  }

  now :
      (pool : String) (pools : List String) (r : Route) (routes : List Route) (s : Route)
      (ss : List Route)
      → eligible_routes q pool ≡ ok routes
      → select (is_healthy health) routes ≡ s ∷ ss
      → pick ordinal (s ∷ ss) ≡ ok r
      → IsChoice q health (pool ∷ pools) r
  now pool pools r routes s ss e f h =
      let (c, picked, m, top) = pick-eq-ok ordinal s ss in
      let same : c ≡ r = ground (arith, picked) in
      let (stands, fits) = In-select (is_healthy health) c routes (rw f m) in
      record {
        before = [];
        pool = pool;
        after = pools;
        split = refl;
        idle_before = λ p n. absurd n;
        routes = routes;
        eligible = e;
        stands = rw (← same) stands;
        healthy = rw (← same) fits;
        highest =
            λ t n u. rw (← same) (top t (rw f at (select-In (is_healthy health) t routes n u)));
      }

  -- A chosen route is healthy, has the highest priority among the healthy routes of its pool, and
  -- the pools before its own have no healthy route.
  pub choose_from-IsChoice :
      (pools : List String) (r : Route)
      → choose_from q health ordinal pools ≡ ok r
      → IsChoice q health pools r
  unfolding choose_from
  choose_from-IsChoice [] r h = ground arith
  choose_from-IsChoice (pool ∷ pools) r h = elim (Result-cases (eligible_routes q pool)) [
    | inr (x, e) ↦ ground (arith, e)
    | inl (routes, e) ↦ elim (First-cases (select (is_healthy health) routes)) [
      | inl f ↦
          later pool pools r routes e f
            (choose_from-IsChoice pools r (sym (choose_from-idle pool pools routes e f) ∙ h))
      | inr (s, ss, f) ↦
          now pool pools r routes s ss e f (sym (choose_from-pick pool pools routes s ss e f) ∙ h)
    ]
  ]

module _ (q : Query) (health : Dict String String) where
  choose_from-skip :
      (ordinal : ℕ) (before rest : List String)
      → ((p : String) → In p before → IsIdle q health p)
      → choose_from q health ordinal (before ++ rest) ≡ choose_from q health ordinal rest
  choose_from-skip ordinal [] rest idle = refl
  choose_from-skip ordinal (p ∷ before) rest idle =
      let (routes, e, f) = idle p (inl refl) in
      choose_from-idle q health ordinal p (before ++ rest) routes e (all_unhealthy health routes f)
      ∙ choose_from-skip ordinal before rest (λ s m. idle s (inr m))

  at_turn :
      (pool : String) (after : List String) (r : Route) (routes : List Route)
      → eligible_routes q pool ≡ ok routes
      → In r (select (is_healthy health) routes)
      → ((s : Route) → In s (select (is_healthy health) routes) → s.priority ≤ r.priority)
      → (ordinal : ℕ) × (choose_from q health ordinal (pool ∷ after) ≡ ok r)
  at_turn pool after r routes e m top = elim (First-cases (select (is_healthy health) routes)) [
    | inl f ↦ absurd (rw f at m)
    | inr (s, ss, f) ↦
        let (i, lt, g) =
          In-get_elem? r (top_tier (s ∷ ss))
            (In-top_tier r (s ∷ ss) (rw f at m) (λ t n. top t (rw f n))) in
        (
          i,
          choose_from-pick q health i pool after routes s ss e f
              ∙ ground (arith, g, mod-eq_of_lt lt),
        )
  ]

  chosen :
      (pools : List String) (r : Route)
      → IsChoice q health pools r
      → (ordinal : ℕ) × (choose_from q health ordinal pools ≡ ok r)
  chosen pools r c =
      let (i, e) =
        at_turn c.pool c.after r c.routes c.eligible
          (select-In (is_healthy health) r c.routes c.stands c.healthy)
          (λ s m. let (n, t) = In-select (is_healthy health) s c.routes m in c.highest s n t) in
      (i, rw c.split (choose_from-skip i c.before (c.pool ∷ c.after) c.idle_before ∙ e))

  -- The routes that some ordinal chooses are the healthy ones of the highest priority in the first
  -- pool that has a healthy route, and each of them is chosen by some ordinal.
  pub choose_new_session_route_iff :
      (pools : List String) (r : Route)
      → ((ordinal : ℕ) × (choose_new_session_route q pools health (pos ordinal) ≡ ok r))
        ↔ IsChoice q health pools r
  unfolding choose_new_session_route
  choose_new_session_route_iff pools r =
      (λ (i, e). choose_from-IsChoice q health i pools r e, chosen pools r)

  eligible_routes-ne-no_healthy : (pool : String) → eligible_routes q pool ≢ err no_healthy
  unfolding eligible_routes route_config
  eligible_routes-ne-no_healthy pool h = ground arith

  IsIdle-all :
      (ordinal : ℕ) (pools : List String)
      → choose_from q health ordinal pools ≡ err no_healthy
      → (p : String) → In p pools
      → IsIdle q health p
  IsIdle-all ordinal [] h p m = elim m [ ]
  IsIdle-all ordinal (pool ∷ pools) h p m = elim (Result-cases (eligible_routes q pool)) [
    | inr (x, e) ↦
        let same : ◌≡◌ {A = Routed Route} (err x) (err no_healthy) =
          sym (choose_from-raise q health ordinal pool pools x e) ∙ h in
        let same' : x ≡ no_healthy = cc in
        absurd (eligible_routes-ne-no_healthy pool (rw same' at e))
    | inl (routes, e) ↦ elim (First-cases (select (is_healthy health) routes)) [
      | inl f ↦ elim m [
        | inl same ↦ rw same (routes, e, none_healthy health routes f)
        | inr rest ↦
            IsIdle-all ordinal pools
              (sym (choose_from-idle q health ordinal pool pools routes e f) ∙ h) p rest
      ]
      | inr (s, ss, f) ↦
          let (c, picked, n, top) = pick-eq-ok ordinal s ss in
          let clash : ◌≡◌ {A = Routed Route} (ok c) (err no_healthy) =
            sym picked ∙ sym (choose_from-pick q health ordinal pool pools routes s ss e f) ∙ h in
          cc
    ]
  ]

  -- The selection fails for want of a route exactly when no pool has a healthy one.
  pub no_healthy_iff :
      (ordinal : ℕ) (pools : List String)
      → (choose_new_session_route q pools health (pos ordinal) ≡ err no_healthy)
        ↔ ((p : String) → In p pools → IsIdle q health p)
  unfolding choose_new_session_route choose_from
  no_healthy_iff ordinal pools = (IsIdle-all ordinal pools, none_left pools)
    where
      none_left :
          (l : List String)
          → ((p : String) → In p l → IsIdle q health p)
          → choose_from q health ordinal l ≡ err no_healthy
      none_left [] f = refl
      none_left (p ∷ l) f =
          let (routes, e, g) = f p (inl refl) in
          choose_from-idle q health ordinal p l routes e (all_unhealthy health routes g)
          ∙ none_left l (λ s m. f s (inr m))
