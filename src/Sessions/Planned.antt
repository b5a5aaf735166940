-- ===== src/Sessions/Planned.antt =====
-- What `resolve_session_plan` binds.
use orichum.Base.{
  ℕ, String, Bool, true, ◌&&◌, ◌≡◌, inl, inr, Option, none, some, List, [], ◌∷◌, ◌++◌, pos,
  string_eq, nat_eq, refl, sym, ap, ◌∙◌, subst, arith, ◌==◌, ==_iff, any, In, Bool-cases, In-append,
  In-append_right, Option-cases,
}
use orichum.Base.Dict.{Dict, lookup}
use orichum.Base.Result.{ok, err, >>=-eq-ok, ok-injective, Result-cases}
use orichum.ModelStacks.{ModelDefinition, StackCandidate}
use orichum.RouteSelection.{
  Route, Query, Routed, eligible_routes, is_healthy, route_chain, choose_new_session_route,
}
use orichum.RouteSelection.Choice.{choose_new_session_route_iff}
use orichum.RouteSelection.Chain.{route_chain_lem}
use orichum.RouteProxy.Policy.{Binding}
use orichum.Sessions.{SessionError, binding_json}
use orichum.Sessions.Bindings.{parse_binding-same}
use orichum.Sessions.Plan.{
  route_eq, Planning, query_of, all_eligible, routed, chain_binding, prefer, bind_known,
  bind_candidate, bind_first,
}

-- A healthy route that the candidate's selection finds in one of the pools.
pub record IsOffered (plan : Planning) (q : Query) (r : Route) : Type 0 where
  pub pool : String
  pub known : In pool plan.pools
  pub routes : List Route
  pub eligible : eligible_routes q pool ≡ ok routes
  pub stands : In r routes
  pub healthy : is_healthy plan.health r ≡ true

all_eligible-In :
    (q : Query) (pools : List String) (all_routes : List Route) (r : Route)
    → all_eligible q pools ≡ ok all_routes
    → In r all_routes
    → (pool : String) × (routes : List Route) × In pool pools
      × (eligible_routes q pool ≡ ok routes)
      × In r routes
unfolding all_eligible
all_eligible-In q [] rs r h m = absurd (subst (In r) (sym (ok-injective h)) m)
all_eligible-In q (pool ∷ pools) rs r h m =
    let (routes, e, h1) = >>=-eq-ok (eligible_routes q pool) _ h in
    let (rest, f, h2) = >>=-eq-ok (all_eligible q pools) _ h1 in
    elim (In-append r routes rest (subst (In r) (sym (ok-injective h2)) m)) [
      | inl a ↦ (pool, routes, inl refl, e, a)
      | inr b ↦
          let (p, rs', k, e', m') = all_eligible-In q pools rest r f b in (p, rs', inr k, e', m')
    ]

any-In : (p : Route → Bool) (l : List Route) → any p l ≡ true → (r : Route) × In r l × (p r ≡ true)
any-In p [] h = cc
any-In p (r ∷ l) h = elim (Bool-cases (p r)) [
  | inl t ↦ (r, inl refl, t)
  | inr f ↦ let (s, m, t) = any-In p l (ground (arith, h, f)) in (s, inr m, t)
]

choice-IsOffered :
    (plan : Planning) (q : Query) (ordinal : ℕ) (r : Route)
    → choose_new_session_route q plan.pools plan.health (pos ordinal) ≡ ok r
    → IsOffered plan q r
choice-IsOffered plan q ordinal r h =
    let c = (choose_new_session_route_iff q plan.health plan.pools r).0 (ordinal, h) in
    record {
      pool = c.pool;
      known =
          subst (In c.pool) (sym c.split)
            (In-append_right c.pool c.before (c.pool ∷ c.after) (inl refl));
      routes = c.routes;
      eligible = c.eligible;
      stands = c.stands;
      healthy = c.healthy;
    }

routed-ok :
    {A : Type 0} (model : String) (call : Routed A) (a : A) → routed model call ≡ ok a → call ≡ ok a
unfolding routed
routed-ok model (ok x) a h = ap ok (ok-injective h)
routed-ok model (err e) a h = cc

chain_binding-primary :
    (primary : Route) (rest : List Route) (b : Binding)
    → chain_binding (primary ∷ rest) ≡ ok b
    → b ≡ record { primary = primary; fallbacks = rest }
unfolding chain_binding binding_json
chain_binding-primary primary rest b h =
    parse_binding-same (record { primary = primary; fallbacks = rest }) b h

module _ (plan : Planning) (models : Dict String ModelDefinition) where
  chain-IsOffered :
      (q : Query) (ordinal : ℕ) (chain : List Route) (b : Binding)
      → route_chain q plan.pools plan.health (pos ordinal) (pos 1) ≡ ok chain
      → chain_binding chain ≡ ok b
      → IsOffered plan q b.primary
  chain-IsOffered q ordinal chain b h k =
      let (p, rest, e, chosen, _, _, _, _) =
        route_chain_lem q plan.pools plan.health (pos ordinal) 1 chain h in
      let same = chain_binding-primary p rest b (rw e at k) in
      subst (λ (b : Binding). IsOffered plan q b.primary) (sym same)
        (choice-IsOffered plan q ordinal p chosen)

  preferred-IsOffered :
      (q : Query) (routes : List Route) (r : Route)
      → all_eligible q plan.pools ≡ ok routes
      → any (λ s. is_healthy plan.health s && s == r) routes ≡ true
      → IsOffered plan q r
  preferred-IsOffered q routes r e t =
      let (s, m, u) = any-In (λ s. is_healthy plan.health s && s == r) routes t in
      let well : is_healthy plan.health s ≡ true = ground (arith, u) in
      let hit : (s == r) ≡ true = ground (arith, u) in
      let (pool, found, k, f, n) = all_eligible-In q plan.pools routes s e m in
      subst (IsOffered plan q) ((==_iff s r).0 hit) (record {
        pool = pool;
        known = k;
        routes = found;
        eligible = f;
        stands = n;
        healthy = well;
      })

  bind_known-IsOffered :
      (c : StackCandidate) (model : ModelDefinition) (ordinal : ℕ) (preferred : Option Binding)
      (b : Binding)
      → bind_known plan models c model ordinal preferred ≡ ok b
      → IsOffered plan (query_of plan models c model) b.primary
  unfolding bind_known prefer
  bind_known-IsOffered c model ordinal none b h =
      let q = query_of plan models c model in
      let (chain, e, h1) =
        >>=-eq-ok (routed c.model (route_chain q plan.pools plan.health (pos ordinal) (pos 1))) _
          h in
      chain-IsOffered q ordinal chain b (routed-ok c.model _ chain e) h1
  bind_known-IsOffered c model ordinal (some liked) b h =
      let q = query_of plan models c model in
      let (chain, e, h1) =
        >>=-eq-ok (routed c.model (route_chain q plan.pools plan.health (pos ordinal) (pos 1))) _
          h in
      let (routes, f, h2) = >>=-eq-ok (routed c.model (all_eligible q plan.pools)) _ h1 in
      elim (Bool-cases (any (λ s. is_healthy plan.health s && s == liked.primary) routes)) [
        | inl t ↦
            let same : b.primary ≡ liked.primary = ground (arith, h2, t) in
            subst (IsOffered plan q) (sym same)
              (preferred-IsOffered q routes liked.primary (routed-ok c.model _ routes f) t)
        | inr n ↦
            chain-IsOffered q ordinal chain b (routed-ok c.model _ chain e) (ground (arith, h2, n))
      ]

  -- The first of the candidates that can be bound, and what it is bound to.
  pub record IsFirst (ordinal : ℕ) (preferred : Option Binding) (cs : List StackCandidate)
      (b : Binding) : Type 0 where
    pub before : List StackCandidate
    pub candidate : StackCandidate
    pub after : List StackCandidate
    pub split : cs ≡ before ++ candidate ∷ after
    pub refused :
        (c : StackCandidate)
        → In c before
        → (e : SessionError) × (bind_candidate plan models c ordinal preferred ≡ err e)
    pub bound : bind_candidate plan models candidate ordinal preferred ≡ ok b
    pub model : ModelDefinition
    pub known : lookup candidate.model models ≡ some model
    pub offered : IsOffered plan (query_of plan models candidate model) b.primary

  bind_candidate-ok :
      (c : StackCandidate) (ordinal : ℕ) (preferred : Option Binding) (b : Binding)
      → bind_candidate plan models c ordinal preferred ≡ ok b
      → (model : ModelDefinition) × (lookup c.model models ≡ some model)
        × IsOffered plan (query_of plan models c model) b.primary
  unfolding bind_candidate
  bind_candidate-ok c ordinal preferred b h = elim (Option-cases (lookup c.model models)) [
    | inl e ↦ ground (arith, e, h)
    | inr (model, e) ↦
        (model, e, bind_known-IsOffered c model ordinal preferred b (ground (arith, e, h)))
  ]

  pub bind_first-IsFirst :
      (scope : String) (cs : List StackCandidate) (ordinal : ℕ) (preferred : Option Binding)
      (b : Binding)
      → bind_first plan models scope cs ordinal preferred ≡ ok b
      → IsFirst ordinal preferred cs b
  unfolding bind_first
  bind_first-IsFirst scope [] ordinal preferred b h = cc
  bind_first-IsFirst scope (c ∷ cs) ordinal preferred b h =
      elim (Result-cases (bind_candidate plan models c ordinal preferred)) [
        | inl (x, e) ↦
            let got : bind_candidate plan models c ordinal preferred ≡ ok b =
              e ∙ ground (arith, e, h) in
            let (model, k, o) = bind_candidate-ok c ordinal preferred b got in
            record {
              before = [];
              candidate = c;
              after = cs;
              split = refl;
              refused = λ d m. absurd m;
              bound = got;
              model = model;
              known = k;
              offered = o;
            }
        | inr (x, e) ↦
            let f = bind_first-IsFirst scope cs ordinal preferred b (ground (arith, e, h)) in
            record {
              before = c ∷ f.before;
              candidate = f.candidate;
              after = f.after;
              split = ap (λ l. c ∷ l) f.split;
              refused = λ d m. elim m [
                | inl same ↦ (x, ap (λ d. bind_candidate plan models d ordinal preferred) same ∙ e)
                | inr n ↦ f.refused d n
              ];
              bound = f.bound;
              model = f.model;
              known = f.known;
              offered = f.offered;
            }
      ]
