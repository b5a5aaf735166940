-- ===== src/Sessions/Bindings.antt =====
-- Which bindings are read, and that a written one is read again.
use orichum.Base.{
  ℕ, ◌≤◌, String, Bool, true, not, ◌≡◌, List, [], ◌∷◌, map, pos, string_eq, nat_eq, refl, arith,
  All, all, length, subst, le→leb,
}
use orichum.Base.Dict.{Dict, lookup}
use orichum.Base.Result.{ok, >>=-eq-ok, ok-injective}
use orichum.Json.{
  Json, int, str, obj, arr, array, items, entries, item, has_exactly, items-from_items,
  entries-from_entries,
}
use orichum.Account.{is_identifier, is_account_id}
use orichum.Account.Registry.{distinct}
use orichum.ModelRouting.{is_model_id}
use orichum.RouteSelection.{Route}
use orichum.RouteProxy.Policy.{Binding}
use orichum.Sessions.{
  SessionError, is_profile, is_upstream, text_of, priority_of, route_entries, route_json,
  route_fields, parse_route_entries, parse_route, parse_routes, binding_json, is_foreign,
  check_binding, parse_binding_entries, parse_binding, bad_account_id, bad_profile, bad_upstream,
  bad_model, bad_identifier,
}

pub record IsRoute (r : Route) : Type 0 where
  pub account_ok : is_account_id r.account_id ≡ true
  pub profile_ok : is_profile r.claudex_profile ≡ true
  pub upstream_ok : is_upstream r.upstream_model ≡ true
  pub priority_ok : r.priority ≤ 1000
  pub model_ok : is_model_id r.logical_model ≡ true
  pub provider_ok : is_identifier r.provider ≡ true
  pub family_ok : is_identifier r.family ≡ true
  pub pool_ok : is_identifier r.pool ≡ true

pub record IsBinding (b : Binding) : Type 0 where
  pub primary_ok : IsRoute b.primary
  pub fallbacks_ok : All IsRoute b.fallbacks
  pub one_fallback : length b.fallbacks ≤ 1
  pub own : all (λ r. not (is_foreign b.primary r)) b.fallbacks ≡ true
  pub accounts : distinct (map (λ r. r.account_id) (b.primary ∷ b.fallbacks)) ≡ true
  pub upstreams : distinct (map (λ r. r.upstream_model) (b.primary ∷ b.fallbacks)) ≡ true

pub text_of-ok :
    (test : String → Bool) (e : SessionError) (v : Json) (s : String)
    → text_of test e v ≡ ok s
    → test s ≡ true
unfolding text_of
text_of-ok test e (str t) s h = ground arith
text_of-ok test e v s h = ground arith

pub text_of-str :
    (test : String → Bool) (e : SessionError) (s : String)
    → test s ≡ true
    → text_of test e (str s) ≡ ok s
unfolding text_of
text_of-str test e s h = rw h refl

priority_of-ok : (v : Json) (n : ℕ) → priority_of v ≡ ok n → n ≤ 1000
unfolding priority_of
priority_of-ok v n h = ground arith

parse_route_entries-IsRoute :
    (d : Dict String Json) (r : Route) → parse_route_entries d ≡ ok r → IsRoute r
unfolding parse_route_entries
parse_route_entries-IsRoute d r h =
    let (a, a_eq, h1) = >>=-eq-ok (text_of is_account_id bad_account_id (item "accountId" d)) _ h in
    let (f, f_eq, h2) = >>=-eq-ok (text_of is_profile bad_profile (item "profile" d)) _ h1 in
    let (u, u_eq, h3) =
      >>=-eq-ok (text_of is_upstream bad_upstream (item "upstreamModel" d)) _ h2 in
    let (n, n_eq, h4) = >>=-eq-ok (priority_of (item "priority" d)) _ h3 in
    let (m, m_eq, h5) = >>=-eq-ok (text_of is_model_id bad_model (item "logicalModel" d)) _ h4 in
    let (p, p_eq, h6) = >>=-eq-ok (text_of is_identifier bad_identifier (item "provider" d)) _ h5 in
    let (y, y_eq, h7) = >>=-eq-ok (text_of is_identifier bad_identifier (item "family" d)) _ h6 in
    let (l, l_eq, h8) = >>=-eq-ok (text_of is_identifier bad_identifier (item "pool" d)) _ h7 in
    subst IsRoute (ok-injective h8) (record {
      account_ok = text_of-ok is_account_id bad_account_id (item "accountId" d) a a_eq;
      profile_ok = text_of-ok is_profile bad_profile (item "profile" d) f f_eq;
      upstream_ok = text_of-ok is_upstream bad_upstream (item "upstreamModel" d) u u_eq;
      priority_ok = priority_of-ok (item "priority" d) n n_eq;
      model_ok = text_of-ok is_model_id bad_model (item "logicalModel" d) m m_eq;
      provider_ok = text_of-ok is_identifier bad_identifier (item "provider" d) p p_eq;
      family_ok = text_of-ok is_identifier bad_identifier (item "family" d) y y_eq;
      pool_ok = text_of-ok is_identifier bad_identifier (item "pool" d) l l_eq;
    })

parse_route-IsRoute : (v : Json) (r : Route) → parse_route v ≡ ok r → IsRoute r
unfolding parse_route
parse_route-IsRoute (obj fs) r h = ground (arith, parse_route_entries-IsRoute (entries fs) r)
parse_route-IsRoute v r h = ground arith

parse_routes-IsRoute : (vs : List Json) (rs : List Route) → parse_routes vs ≡ ok rs → All IsRoute rs
unfolding parse_routes
parse_routes-IsRoute [] rs h = ground arith
parse_routes-IsRoute (v ∷ vs) [] h = tt
parse_routes-IsRoute (v ∷ vs) (r ∷ rs) h =
    ground (arith, parse_route-IsRoute v r, parse_routes-IsRoute vs rs)

parse_binding_entries-IsBinding :
    (d : Dict String Json) (b : Binding) → parse_binding_entries d ≡ ok b → IsBinding b
unfolding parse_binding_entries check_binding
parse_binding_entries-IsBinding d b h =
    let (raw, _, h1) =
      >>=-eq-ok (elim (item "fallbacks" d) [ arr xs ↦ ok (items xs) | _ ↦ _ ]) _ h in
    let (p, p_eq, h2) = >>=-eq-ok (parse_route (item "primary" d)) _ h1 in
    let (f, f_eq, h3) = >>=-eq-ok (parse_routes raw) _ h2 in
    let (_, c, h4) = >>=-eq-ok (check_binding p f) _ h3 in
    subst IsBinding (ok-injective h4) (record {
      primary_ok = parse_route-IsRoute (item "primary" d) p p_eq;
      fallbacks_ok = parse_routes-IsRoute raw f f_eq;
      one_fallback = ground (arith, c);
      own = ground (arith, c);
      accounts = ground (arith, c);
      upstreams = ground (arith, c);
    })

-- Every binding that is read has routes of the right form, at most one fallback, of the primary's
-- family and model, and no account and no upstream model twice.
pub parse_binding-IsBinding : (v : Json) (b : Binding) → parse_binding v ≡ ok b → IsBinding b
unfolding parse_binding
parse_binding-IsBinding (obj fs) b h =
    ground (arith, parse_binding_entries-IsBinding (entries fs) b)
parse_binding-IsBinding v b h = ground arith

route_fields-exact : (r : Route) → has_exactly route_fields (route_entries r) ≡ true
unfolding has_exactly route_entries string_eq
route_fields-exact r = refl

route-items :
    (r : Route)
    → (item "accountId" (route_entries r) ≡ str r.account_id)
      × (item "profile" (route_entries r) ≡ str r.claudex_profile)
      × (item "upstreamModel" (route_entries r) ≡ str r.upstream_model)
      × (item "priority" (route_entries r) ≡ int (pos r.priority))
      × (item "logicalModel" (route_entries r) ≡ str r.logical_model)
      × (item "provider" (route_entries r) ≡ str r.provider)
      × (item "family" (route_entries r) ≡ str r.family)
      × (item "pool" (route_entries r) ≡ str r.pool)
unfolding item lookup route_entries string_eq
route-items r = (refl, refl, refl, refl, refl, refl, refl, refl)

priority_of-int : (n : ℕ) → n ≤ 1000 → priority_of (int (pos n)) ≡ ok n
unfolding priority_of
priority_of-int n h = ground (arith, h)

parse_route_entries-json : (r : Route) → IsRoute r → parse_route_entries (route_entries r) ≡ ok r
unfolding parse_route_entries
parse_route_entries-json r h =
    let (i, f, u, n, m, p, y, l) = route-items r in
    rw (i, f, u, n, m, p, y, l)
      (rw
        (
          text_of-str is_account_id bad_account_id r.account_id h.account_ok,
          text_of-str is_profile bad_profile r.claudex_profile h.profile_ok,
          text_of-str is_upstream bad_upstream r.upstream_model h.upstream_ok,
          priority_of-int r.priority h.priority_ok,
          text_of-str is_model_id bad_model r.logical_model h.model_ok,
          text_of-str is_identifier bad_identifier r.provider h.provider_ok,
          text_of-str is_identifier bad_identifier r.family h.family_ok,
          text_of-str is_identifier bad_identifier r.pool h.pool_ok,
        )
        refl)

parse_route-json : (r : Route) → IsRoute r → parse_route (route_json r) ≡ ok r
unfolding parse_route route_json
parse_route-json r h =
    rw (entries-from_entries (route_entries r))
      (rw (route_fields-exact r) (parse_route_entries-json r h))

parse_routes-json : (rs : List Route) → All IsRoute rs → parse_routes (map route_json rs) ≡ ok rs
unfolding parse_routes
parse_routes-json [] h = refl
parse_routes-json (r ∷ rs) h = rw (parse_route-json r h.0) (rw (parse_routes-json rs h.1) refl)

abbrev binding_entries : Binding → Dict String Json
binding_entries b =
    ("primary", route_json b.primary) ∷ ("fallbacks", array (map route_json b.fallbacks)) ∷ []

binding-exact :
    (b : Binding) → has_exactly ("primary" ∷ "fallbacks" ∷ []) (binding_entries b) ≡ true
unfolding has_exactly string_eq
binding-exact b = refl

binding-items :
    (b : Binding)
    → (item "primary" (binding_entries b) ≡ route_json b.primary)
      × (item "fallbacks" (binding_entries b) ≡ array (map route_json b.fallbacks))
unfolding item lookup string_eq
binding-items b = (refl, refl)

-- A binding of this form is read again, from what is written of it, as it was.
pub parse_binding-json : (b : Binding) → IsBinding b → parse_binding (binding_json b) ≡ ok b
unfolding parse_binding binding_json parse_binding_entries check_binding
parse_binding-json b h =
    let (p, f) = binding-items b in
    rw (binding-exact b) (
      rw (p, f)
        (rw (items-from_items (map route_json b.fallbacks), parse_route-json b.primary h.primary_ok)
          (rw (parse_routes-json b.fallbacks h.fallbacks_ok) (
            rw (le→leb (length b.fallbacks) 1 h.one_fallback, h.own, h.accounts, h.upstreams)
              refl))))

parse_route_entries-same : (r s : Route) → parse_route_entries (route_entries r) ≡ ok s → s ≡ r
unfolding parse_route_entries text_of priority_of
parse_route_entries-same r s h =
    let (i, f, u, n, m, p, y, l) = route-items r in
    let h1 = rw (i, f, u, n, m, p, y, l) at h in ground (arith, h1)

-- A route that is read from what is written of a route is that route.
pub parse_route-same : (r s : Route) → parse_route (route_json r) ≡ ok s → s ≡ r
unfolding parse_route route_json
parse_route-same r s h =
    let h1 = rw (entries-from_entries (route_entries r)) at h in
    parse_route_entries-same r s (rw (route_fields-exact r) at h1)

parse_routes-same : (rs ss : List Route) → parse_routes (map route_json rs) ≡ ok ss → ss ≡ rs
unfolding parse_routes
parse_routes-same [] ss h = ground (arith, h)
parse_routes-same (r ∷ rs) ss h =
    let (s, s_eq, h1) = >>=-eq-ok (parse_route (route_json r)) _ h in
    let (rest, r_eq, h2) = >>=-eq-ok (parse_routes (map route_json rs)) _ h1 in
    let a = parse_route-same r s s_eq in
    let b = parse_routes-same rs rest r_eq in ground (arith, h2, a, b)

-- A binding that is read from what is written of routes has those routes.
pub parse_binding-same : (b c : Binding) → parse_binding (binding_json b) ≡ ok c → c ≡ b
unfolding parse_binding binding_json parse_binding_entries
parse_binding-same b c h =
    let (p, f) = binding-items b in
    let h1 = rw (binding-exact b) at h in
    let h2 = rw (p, f) at h1 in
    let h3 = rw (items-from_items (map route_json b.fallbacks)) at h2 in
    let (r, r_eq, h4) = >>=-eq-ok (parse_route (route_json b.primary)) _ h3 in
    let (rs, rs_eq, h5) = >>=-eq-ok (parse_routes (map route_json b.fallbacks)) _ h4 in
    let x = parse_route-same b.primary r r_eq in
    let y = parse_routes-same b.fallbacks rs rs_eq in ground (arith, h5, x, y)
