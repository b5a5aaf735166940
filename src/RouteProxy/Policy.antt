-- ===== src/RouteProxy/Policy.antt =====
-- `RouteIndex.request_policy_for`: the routes that a session binds to a request's model. The session
-- comes from the session store, which is an argument.
use orichum.Base.{
  String, true, Option, none, some, List, [], ◌∷◌, map, select, ◌≡◌, ◌↔◌, inl, inr, refl, sym, ap,
  ◌∙◌, ◌==◌, string_eq, nat_eq, if◌then◌else◌, arith, In, In-select, select-In, Bool-cases, Eq,
  ℕ_discrete, all, ==_iff, all-In, In-all, In-map, map-In,
}
use orichum.Base.Result.{Result, ok, ◌>>=◌}
use orichum.RouteSelection.{Route}

-- A binding of a role: its primary route and its fallbacks.
pub record Binding : Type 0 where
  pub primary : Route
  pub fallbacks : List Route

-- The controller's binding, then those of the agents in the order of `ROLES`.
pub record Session : Type 0 where
  pub bindings : List Binding
  pub leanctx_profile : String

pub Route-discrete : Discrete Route
Route-discrete = hlevel (ℕ_discrete, string_eq.dec)

abbrev pub Routes : Type 0
Routes = Route × Option Route

routes_discrete : Discrete Routes
unfolding Route-discrete
routes_discrete = hlevel Route-discrete

instance unfoldable pub routes_eq : Eq Routes
unfolding routes_discrete
routes_eq = record { dec = routes_discrete }

unfoldable pub routes_of : Binding → Routes
routes_of b = (b.primary, elim b.fallbacks [ [] ↦ none | r ∷ rs ↦ some r ])

-- `next(iter(matches)) if len(matches) == 1 else None`, for the set of the list's items.
unfoldable pub only : List Routes → Option Routes
only [] = none
only (x ∷ xs) = if all (λ y. y == x) xs then some x else none

unfoldable pub matching : String → List Binding → List Routes
matching model bindings = map routes_of (select (λ b. b.primary.upstream_model == model) bindings)

module _ {E : Type 0} (load : String → Result E Session) where
  -- The profile of a request without a session is the full one.
  unfoldable pub request_policy_for : Option String → String → Result E (Option Routes × String)
  request_policy_for none model = ok (none, "full")
  request_policy_for (some session_id) model = do
    session ← load session_id
    ok (only (matching model session.bindings), session.leanctx_profile)

only-In :
    (l : List Routes) (x : Routes) → only l ≡ some x → In x l × ((y : Routes) → In y l → y ≡ x)
unfolding only
only-In [] x h = cc
only-In (y ∷ l) x h = elim (Bool-cases (all (λ z. z == y) l)) [
  | inr n ↦ ground (arith, n)
  | inl t ↦
      let same : y ≡ x = ground (arith, t) in
      (
        inl (sym same),
        λ z m. elim m [
          | inl e ↦ e ∙ same
          | inr k ↦ (==_iff z y).0 (all-In (λ w. w == y) l t z k) ∙ same
        ],
      )
]

In-only :
    (l : List Routes) (x : Routes) → In x l → ((y : Routes) → In y l → y ≡ x) → only l ≡ some x
unfolding only
In-only [] x m same = absurd m
In-only (y ∷ l) x m same =
    let alike : all (λ z. z == y) l ≡ true =
      In-all (λ z. z == y) l (λ z k. (==_iff z y).1 (same z (inr k) ∙ sym (same y (inl refl)))) in
    rw alike (ap some (same y (inl refl)))

matching-In :
    (model : String) (bs : List Binding) (r : Routes)
    → In r (matching model bs)
    → (b : Binding) × In b bs × (b.primary.upstream_model ≡ model) × (r ≡ routes_of b)
unfolding matching
matching-In model bs r m =
    let (b, n, e) = map-In routes_of r (select (λ c. c.primary.upstream_model == model) bs) m in
    let (k, t) = In-select (λ c. c.primary.upstream_model == model) b bs n in
    (b, k, (==_iff b.primary.upstream_model model).0 t, e)

In-matching :
    (model : String) (bs : List Binding) (b : Binding)
    → In b bs
    → b.primary.upstream_model ≡ model
    → In (routes_of b) (matching model bs)
unfolding matching
In-matching model bs b m e = In-map routes_of b _ (
    select-In (λ c. c.primary.upstream_model == model) b bs m
      ((==_iff b.primary.upstream_model model).1 e))

-- A session that is loaded gives a request its routes exactly when some binding has the request's
-- model as its primary model, and all that have it agree on the primary and the first fallback.
pub request_policy_for_iff :
    {E : Type 0} (load : String → Result E Session) (id model : String) (s : Session) (r : Routes)
    → load id ≡ ok s
    → (request_policy_for load (some id) model ≡ ok (some r, s.leanctx_profile)) ↔ (
        ((b : Binding) × In b s.bindings × (b.primary.upstream_model ≡ model) × (routes_of b ≡ r))
        × ((b : Binding) → In b s.bindings → b.primary.upstream_model ≡ model → routes_of b ≡ r))
unfolding request_policy_for
request_policy_for_iff load id model s r h = (
  λ e.
      let found : only (matching model s.bindings) ≡ some r = ground (arith, e, h) in
      let (m, same) = only-In (matching model s.bindings) r found in
      let (b, n, p, q) = matching-In model s.bindings r m in
      ((b, n, p, sym q), λ c k u. same (routes_of c) (In-matching model s.bindings c k u)),
  λ ((b, n, p, q), same).
      let found : only (matching model s.bindings) ≡ some r =
        In-only (matching model s.bindings) r (rw (← q) (In-matching model s.bindings b n p))
          (λ y m. let (c, k, u, e) = matching-In model s.bindings y m in e ∙ same c k u) in
      ground (arith, h, found),
)
