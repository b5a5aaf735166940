-- ===== src/ModelStacks/Migrated.antt =====
-- The candidates that are made from a document of schema version 1, or for a legacy stack's planning
-- advisor, are as good as those that a document of version 2 lists.
use orichum.Base.{
  String, true, ◌≡◌, ◌≢◌, List, [], ◌∷◌, arith, All, all, map, string_eq, nat_eq, refl, subst, sym,
  ap, ℕ, zero, ◌+◌, Bool, some, Bool-cases, ◌==◌, ==_iff, inl, inr, if◌then◌else◌,
}
use orichum.Base.Dict.{Dict, keys, has_key, lookup}
use orichum.Base.Result.{ok, guard, >>=-eq-ok, ok-injective}
use orichum.Json.{Json}
use orichum.Account.Registry.{distinct}
use orichum.ModelStacks.{
  ModelDefinition, StackCandidate, Schema, version_1, version_2, items_of, model_ids, no_candidates,
  unknown_model, repeated_candidate, repeated_route, mixed_families, distinct_routes, one_family,
}
use orichum.ModelStacks.Normalize.{
  routes_of, family_of, provider_routes, new_candidates, migrated_candidates, scope_candidates,
  planning_from,
}
use orichum.ModelStacks.Parsed.{IsModel}
use orichum.ModelStacks.Valid.{IsCandidate, IsCandidates, candidate_list-IsCandidates}

-- The entry of a key that is there.
pub has_key-lookup :
    {V : Type 0} (P : String × V → Type 0) (k : String) (d : Dict String V)
    → All P d
    → has_key k d ≡ true
    → (v : V) × (lookup k d ≡ some v) × P (k, v)
unfolding has_key lookup
has_key-lookup P k [] a h = cc
has_key-lookup P k ((j, v) ∷ d) a h = elim (Bool-cases (k == j)) [
  | inl e ↦ (v, rw e refl, subst (λ i. P (i, v)) (sym ((==_iff k j).0 e)) a.0)
  | inr e ↦ let (w, q, p) = has_key-lookup P k d a.1 (rw e at h) in (w, rw e q, p)
]

all-keys_go :
    {V : Type 0} (d e : Dict String V)
    → ((k : String) → has_key k d ≡ true → has_key k e ≡ true)
    → all (λ k. has_key k e) (keys d) ≡ true
unfolding has_key
all-keys_go [] e f = refl
all-keys_go ((k, v) ∷ d) e f =
    let head : has_key k e ≡ true = f k (ground arith) in
    let rest = all-keys_go d e (λ j h. f j (ground arith)) in ground (arith, head, rest)

all-keys : {V : Type 0} (d : Dict String V) → all (λ k. has_key k d) (keys d) ≡ true
all-keys d = all-keys_go d d (λ k h. h)

module _ (digest : String → String → ℕ → String → String) (models : Dict String ModelDefinition)
    (valid : All IsModel models) where
  new_candidates-models :
      (stack scope : String) (n : ℕ) (ms : List String)
      → map (λ c. c.model) (new_candidates digest models stack scope n ms) ≡ ms
  unfolding new_candidates
  new_candidates-models stack scope n [] = refl
  new_candidates-models stack scope n (m ∷ ms) =
      ap (λ t. m ∷ t) (new_candidates-models stack scope (n + 1) ms)

  new_candidates-families :
      (stack scope : String) (n : ℕ) (ms : List String)
      → map (λ c. family_of models c.model) (new_candidates digest models stack scope n ms)
        ≡ map (family_of models) ms
  unfolding new_candidates
  new_candidates-families stack scope n [] = refl
  new_candidates-families stack scope n (m ∷ ms) =
      ap (λ t. family_of models m ∷ t) (new_candidates-families stack scope (n + 1) ms)

  keys-given : (d : Dict String String) → d ≢ [] → keys d ≢ []
  keys-given [] n e = n refl
  keys-given (x ∷ d) n e = cc

  routes_of-given : (m : String) → has_key m models ≡ true → routes_of models m ≢ []
  unfolding routes_of
  routes_of-given m h =
      let (d, e, v) = has_key-lookup IsModel m models valid h in λ z. v.given (ground (arith, e, z))

  new_candidates-IsCandidate :
      (stack scope : String) (n : ℕ) (ms : List String)
      → all (λ m. has_key m models) ms ≡ true
      → All (IsCandidate models) (new_candidates digest models stack scope n ms)
  unfolding new_candidates
  new_candidates-IsCandidate stack scope n [] h = tt
  new_candidates-IsCandidate stack scope n (m ∷ ms) h =
      let known : has_key m models ≡ true = ground arith in
      (
        record {
          known = known;
          given = keys-given (routes_of models m) (routes_of-given m known);
          routed = all-keys (routes_of models m);
        },
        new_candidates-IsCandidate stack scope (n + 1) ms (ground arith),
      )

  migrated-IsCandidates :
      (stack scope : String) (multiple : Bool) (v : Json) (cs : List StackCandidate)
      → migrated_candidates digest models stack scope multiple v ≡ ok cs
      → IsCandidates models cs
  unfolding migrated_candidates
  migrated-IsCandidates stack scope multiple v cs h =
      let (raw, _, h1) =
        >>=-eq-ok (if multiple then items_of no_candidates v else ok (v ∷ [])) _ h in
      let (ms, _, h2) = >>=-eq-ok (model_ids raw) _ h1 in
      let (_, d, h3) = >>=-eq-ok (guard (distinct ms) repeated_candidate) _ h2 in
      let (_, k, h4) = >>=-eq-ok (guard (all (λ m. has_key m models) ms) unknown_model) _ h3 in
      let (_, f, h5) =
        >>=-eq-ok (guard (one_family (map (family_of models) ms)) mixed_families) _ h4 in
      let (_, r, h6) =
        >>=-eq-ok
          (guard
            (distinct_routes
              (provider_routes models (new_candidates digest models stack scope zero ms)))
            repeated_route)
          _ h5 in
      subst (IsCandidates models) (ok-injective h6) (record {
        each = new_candidates-IsCandidate stack scope zero ms (ground (arith, k));
        models_once = rw (new_candidates-models stack scope zero ms) (ground (arith, d));
        routes_once = ground (arith, r);
        family = rw (new_candidates-families stack scope zero ms) (ground (arith, f));
      })

  pub scope-IsCandidates :
      (s : Schema) (stack scope : String) (multiple : Bool) (seen : List String) (v : Json)
      (r : List StackCandidate × List String)
      → scope_candidates digest models s stack scope multiple seen v ≡ ok r
      → IsCandidates models r.0
  unfolding scope_candidates
  scope-IsCandidates version_1 stack scope multiple seen v r h =
      let (cs, e, h1) = >>=-eq-ok (migrated_candidates digest models stack scope multiple v) _ h in
      subst (λ r. IsCandidates models r.0) (ok-injective h1)
        (migrated-IsCandidates stack scope multiple v cs e)
  scope-IsCandidates version_2 stack scope multiple seen v r h =
      candidate_list-IsCandidates models seen v r h

  planning-each :
      (stack : String) (n : ℕ) (cs : List StackCandidate)
      → All (IsCandidate models) cs
      → All (IsCandidate models) (planning_from digest stack n cs)
  unfolding planning_from
  planning-each stack n [] a = tt
  planning-each stack n (c ∷ cs) a = (
    record { known = a.0.known; given = a.0.given; routed = a.0.routed },
    planning-each stack (n + 1) cs a.1,
  )

  planning-map :
      {B : Type 0} (f : String → B) (stack : String) (n : ℕ) (cs : List StackCandidate)
      → map (λ c. f c.model) (planning_from digest stack n cs) ≡ map (λ c. f c.model) cs
  unfolding planning_from
  planning-map f stack n [] = refl
  planning-map f stack n (c ∷ cs) = ap (λ t. f c.model ∷ t) (planning-map f stack (n + 1) cs)

  planning-routes :
      (stack : String) (n : ℕ) (cs : List StackCandidate)
      → provider_routes models (planning_from digest stack n cs) ≡ provider_routes models cs
  unfolding planning_from provider_routes
  planning-routes stack n [] = refl
  planning-routes stack n (c ∷ cs) = ground (arith, planning-routes stack (n + 1) cs)

  pub planning-IsCandidates :
      (stack : String) (cs : List StackCandidate)
      → IsCandidates models cs
      → IsCandidates models (planning_from digest stack zero cs)
  planning-IsCandidates stack cs h = record {
    each = planning-each stack zero cs h.each;
    models_once = rw (planning-map (λ m. m) stack zero cs) h.models_once;
    routes_once = rw (planning-routes stack zero cs) h.routes_once;
    family = rw (planning-map (family_of models) stack zero cs) h.family;
  }
