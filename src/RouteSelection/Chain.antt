-- ===== src/RouteSelection/Chain.antt =====
-- `route_chain`: one primary route, and at most one recovery route on another account.
use orichum.Base.{
  ℕ, zero, suc, ◌≤◌, String, true, false, not, ◌&&◌, List, [], ◌∷◌, ◌++◌, ◌≡◌, ◌⊎◌, ◌≢◌, inl, inr,
  refl, ap, string_eq, nat_eq, contains, In, In-append, In-take, length-take_le, take, Bool-cases,
  arith, length, ℤ, pos,
}
use orichum.Base.Dict.{Dict}
use orichum.Base.Result.{ok, Result-cases}
use orichum.RouteSelection.{
  Route, Query, eligible_routes, is_healthy, choose_new_session_route, gather, gather_pools,
  route_chain,
}

append-ne-nil : (xs : List Route) (r : Route) → (xs ++ r ∷ []) ≢ []
append-ne-nil [] r h = cc
append-ne-nil (x ∷ xs) r h = cc

-- A route that may stand in for `primary`: healthy, on another account, and eligible in a pool.
pub record IsAlternate (q : Query) (health : Dict String String) (pools : List String)
    (primary r : Route) : Type 0 where
  pub healthy : is_healthy health r ≡ true
  pub other : r.account_id ≢ primary.account_id
  pub pool : String
  pub known : In pool pools
  pub routes : List Route
  pub eligible : eligible_routes q pool ≡ ok routes
  pub stands : In r routes

module _ (q : Query) (health : Dict String String) (all_pools : List String) (primary : Route) where
  -- What the loops keep: the candidates are alternates, and the accounts seen besides the primary's
  -- have a candidate.
  record Inv (s : List Route × List String) : Type 0 where
    alternates : (r : Route) → In r s.0 → IsAlternate q health all_pools primary r
    primary_seen : contains s.1 primary.account_id ≡ true
    seen_found : (i : String) → contains s.1 i ≡ true → i ≢ primary.account_id → s.0 ≢ []

  take_route :
      (pool : String) (routes : List Route) (r : Route) (candidates : List Route)
      (seen : List String)
      → In pool all_pools
      → eligible_routes q pool ≡ ok routes
      → In r routes
      → contains seen r.account_id ≡ false
      → is_healthy health r ≡ true
      → Inv (candidates, seen)
      → Inv (candidates ++ r ∷ [], r.account_id ∷ seen)
  take_route pool routes r candidates seen k e m new h inv = record {
    alternates = λ t n. elim (In-append t candidates (r ∷ []) n) [
      | inl old ↦ inv.alternates t old
      | inr (inr none') ↦ absurd none'
      | inr (inl same) ↦ rw same (record {
        healthy = h;
        other = λ p. ground (arith, ap (contains seen) p, inv.primary_seen);
        pool = pool;
        known = k;
        routes = routes;
        eligible = e;
        stands = m;
      })
    ];
    primary_seen = ground (arith, inv.primary_seen);
    seen_found = λ i t n. append-ne-nil candidates r;
  }

  gather-Inv :
      (pool : String) (routes rs : List Route) (s : List Route × List String)
      → In pool all_pools
      → eligible_routes q pool ≡ ok routes
      → ((r : Route) → In r rs → In r routes)
      → Inv s
      → Inv (gather health rs s)
  unfolding gather
  gather-Inv pool routes [] s k e sub inv = inv
  gather-Inv pool routes (r ∷ rs) (candidates, seen) k e sub inv =
      gather-Inv pool routes rs _ k e (λ t m. sub t (inr m))
        (elim (Bool-cases (not (contains seen r.account_id) && is_healthy health r)) [
          | inl t ↦ rw t (
              take_route pool routes r candidates seen k e (sub r (inl refl)) (ground arith)
                (ground arith) inv)
          | inr f ↦ rw f inv
        ])

  gather-keeps :
      (rs : List Route) (s : List Route × List String) → s.0 ≢ [] → (gather health rs s).0 ≢ []
  unfolding gather
  gather-keeps [] s h = h
  gather-keeps (r ∷ rs) (candidates, seen) h =
      gather-keeps rs _
        (elim (Bool-cases (not (contains seen r.account_id) && is_healthy health r)) [
          | inl t ↦ rw t (append-ne-nil candidates r)
          | inr f ↦ rw f h
        ])

  -- A healthy route on another account leaves a candidate.
  gather-finds :
      (pool : String) (routes rs : List Route) (s : List Route × List String) (r : Route)
      → In pool all_pools
      → eligible_routes q pool ≡ ok routes
      → ((t : Route) → In t rs → In t routes)
      → Inv s
      → In r rs
      → is_healthy health r ≡ true
      → r.account_id ≢ primary.account_id
      → (gather health rs s).0 ≢ []
  unfolding gather
  gather-finds pool routes [] s r k e sub inv m h o = absurd m
  gather-finds pool routes (x ∷ rs) (candidates, seen) r k e sub inv (inl same) h o =
      gather-keeps rs _
        (elim (Bool-cases (not (contains seen x.account_id) && is_healthy health x)) [
          | inl t ↦ rw t (append-ne-nil candidates x)
          | inr f ↦ rw f (inv.seen_found r.account_id (ground (arith, same)) o)
        ])
  gather-finds pool routes (x ∷ rs) (candidates, seen) r k e sub inv (inr m) h o =
      gather-finds pool routes rs _ r k e (λ t n. sub t (inr n))
        (elim (Bool-cases (not (contains seen x.account_id) && is_healthy health x)) [
          | inl t ↦ rw t (
              take_route pool routes x candidates seen k e (sub x (inl refl)) (ground arith)
                (ground arith) inv)
          | inr f ↦ rw f inv
        ])
        m h o

  gather_pools-Inv :
      (pools : List String) (s t : List Route × List String)
      → ((p : String) → In p pools → In p all_pools)
      → Inv s
      → gather_pools q health pools s ≡ ok t
      → Inv t
  unfolding gather_pools
  gather_pools-Inv [] s t sub inv h = ground arith
  gather_pools-Inv (pool ∷ pools) s t sub inv h = elim (Result-cases (eligible_routes q pool)) [
    | inr (x, e) ↦ ground (arith, e)
    | inl (routes, e) ↦
        gather_pools-Inv pools (gather health routes s) t (λ p m. sub p (inr m))
          (gather-Inv pool routes routes s (sub pool (inl refl)) e (λ r m. m) inv)
          (ground (arith, e))
  ]

  gather_pools-keeps :
      (pools : List String) (s t : List Route × List String)
      → s.0 ≢ []
      → gather_pools q health pools s ≡ ok t
      → t.0 ≢ []
  unfolding gather_pools
  gather_pools-keeps [] s t n h = ground arith
  gather_pools-keeps (pool ∷ pools) s t n h = elim (Result-cases (eligible_routes q pool)) [
    | inr (x, e) ↦ ground (arith, e)
    | inl (routes, e) ↦
        gather_pools-keeps pools (gather health routes s) t (gather-keeps routes s n)
          (ground (arith, e))
  ]

  gather_pools-finds :
      (pools : List String) (s t : List Route × List String) (r : Route)
      (a : IsAlternate q health pools primary r)
      → ((p : String) → In p pools → In p all_pools)
      → Inv s
      → gather_pools q health pools s ≡ ok t
      → t.0 ≢ []
  unfolding gather_pools
  gather_pools-finds [] s t r a sub inv h = absurd a.known
  gather_pools-finds (pool ∷ pools) s t r a sub inv h =
      elim (Result-cases (eligible_routes q pool)) [
        | inr (x, e) ↦ ground (arith, e)
        | inl (routes, e) ↦ elim a.known [
          | inl same ↦
              let found : routes ≡ a.routes = ground (arith, e, same, a.eligible) in
              gather_pools-keeps pools (gather health routes s) t
                (gather-finds pool routes routes s r (sub pool (inl refl)) e (λ u m. m) inv
                  (rw found a.stands) a.healthy a.other)
                (ground (arith, e))
          | inr later ↦
              gather_pools-finds pools (gather health routes s) t r
                (record {
                  healthy = a.healthy;
                  other = a.other;
                  pool = a.pool;
                  known = later;
                  routes = a.routes;
                  eligible = a.eligible;
                  stands = a.stands;
                })
                (λ p m. sub p (inr m))
                (gather-Inv pool routes routes s (sub pool (inl refl)) e (λ u m. m) inv)
                (ground (arith, e))
        ]
      ]

  start : Inv ([], primary.account_id ∷ [])
  start = record {
    alternates = λ r m. absurd m;
    primary_seen = ground arith;
    seen_found = λ i t n. absurd (n (ground arith));
  }

module _ (q : Query) (pools : List String) (health : Dict String String) (ordinal : ℤ)
    (alternates : ℕ) where
  -- A chain is the session's chosen route, then at most `max_alternates` alternates for it: healthy
  -- routes on another account, eligible in one of the pools. Where one alternate is allowed and
  -- there is one, the chain has it.
  pub route_chain_lem :
      (rs : List Route)
      → route_chain q pools health ordinal (pos alternates) ≡ ok rs
      → (primary : Route) × (rest : List Route) × (rs ≡ primary ∷ rest)
        × (choose_new_session_route q pools health ordinal ≡ ok primary)
        × (alternates ≤ 1)
        × (length rest ≤ alternates)
        × ((r : Route) → In r rest → IsAlternate q health pools primary r)
        × ((r : Route) → IsAlternate q health pools primary r → (alternates ≡ 0) ⊎ (rest ≢ []))
  unfolding route_chain
  route_chain_lem rs h = elim (Result-cases (choose_new_session_route q pools health ordinal)) [
    | inr (x, e) ↦ ground (arith, e)
    | inl (primary, e) ↦
        elim (Result-cases (gather_pools q health pools ([], primary.account_id ∷ []))) [
          | inr (x, f) ↦ ground (arith, e, f)
          | inl (s, f) ↦ (
            primary,
            take alternates s.0,
            ground (arith, e, f),
            e,
            ground (arith, e, f),
            length-take_le alternates s.0,
            λ r m.
                (gather_pools-Inv q health pools primary pools _ s (λ p n. n)
                    (start q health pools primary) f).alternates
                  r (In-take alternates r s.0 m),
            λ r a. take_some alternates s.0 (
                gather_pools-finds q health pools primary pools _ s r a (λ p n. n)
                  (start q health pools primary) f),
          )
        ]
  ]
    where
      take_some : (n : ℕ) (l : List Route) → l ≢ [] → (n ≡ 0) ⊎ (take n l ≢ [])
      take_some zero l m = inl refl
      take_some (suc n) [] m = absurd (m refl)
      take_some (suc n) (x ∷ l) m = inr (λ p. cc)
