-- ===== src/ModelStacks/Valid.antt =====
-- What a candidate list is after it was parsed, for both schema versions: every candidate can be
-- routed, and the list has one family, no model twice and no route twice.
use orichum.Base.{
  String, true, ◌≡◌, ◌≢◌, List, [], ◌∷◌, arith, All, all, map, string_eq, nat_eq, subst, contains,
  not,
}
use orichum.Base.Dict.{Dict, has_key}
use orichum.Base.Result.{ok, guard, >>=-eq-ok, ok-injective}
use orichum.Json.{Json, item}
use orichum.Account.Registry.{distinct}
use orichum.ModelStacks.{
  ModelDefinition, StackCandidate, exact, model_id, items_of, identifiers, no_providers,
  no_candidates, repeated_id, unknown_model, distinct_routes, one_family,
}
use orichum.ModelStacks.Normalize.{
  routes_of, family_of, candidate_text, candidate, candidates_from, provider_routes, candidate_list,
}
use orichum.ModelStacks.Parsed.{items_of-ok}

module _ (models : Dict String ModelDefinition) where
  pub record IsCandidate (c : StackCandidate) : Type 0 where
    pub known : has_key c.model models ≡ true
    pub given : c.providers ≢ []
    pub routed : all (λ p. has_key p (routes_of models c.model)) c.providers ≡ true

  pub record IsCandidates (cs : List StackCandidate) : Type 0 where
    pub each : All IsCandidate cs
    pub models_once : distinct (map (λ c. c.model) cs) ≡ true
    pub routes_once : distinct_routes (provider_routes models cs) ≡ true
    pub family : one_family (map (λ c. family_of models c.model) cs) ≡ true

  identifiers-given :
      (vs : List Json) (ps : List String) → identifiers vs ≡ ok ps → vs ≢ [] → ps ≢ []
  unfolding identifiers
  identifiers-given [] ps h n = ground arith
  identifiers-given (v ∷ vs) ps h n = ground arith

  pub candidate-IsCandidate :
      (seen : List String) (v : Json) (r : StackCandidate × List String)
      → candidate models seen v ≡ ok r
      → IsCandidate r.0
  unfolding candidate
  candidate-IsCandidate seen v r h =
      let (d, _, h1) = >>=-eq-ok (exact v ("id" ∷ "model" ∷ "providers" ∷ [])) _ h in
      let (id, _, h2) = >>=-eq-ok (candidate_text (item "id" d)) _ h1 in
      let (_, _, h3) = >>=-eq-ok (guard (not (contains seen id)) repeated_id) _ h2 in
      let (m, _, h4) = >>=-eq-ok (model_id (item "model" d)) _ h3 in
      let (_, k, h5) = >>=-eq-ok (guard (has_key m models) unknown_model) _ h4 in
      let (raw, raw_eq, h6) = >>=-eq-ok (items_of no_providers (item "providers" d)) _ h5 in
      let (ps, ps_eq, h7) = >>=-eq-ok (identifiers raw) _ h6 in
      let given =
        identifiers-given raw ps ps_eq (items_of-ok no_providers (item "providers" d) raw raw_eq) in
      record {
        known = ground (arith, k, h7);
        given = ground (arith, h7, given);
        routed = ground (arith, h7);
      }

  candidates_from-IsCandidate :
      (seen : List String) (vs : List Json) (r : List StackCandidate × List String)
      → candidates_from models seen vs ≡ ok r
      → All IsCandidate r.0
  unfolding candidates_from
  candidates_from-IsCandidate seen [] r h = ground arith
  candidates_from-IsCandidate seen (v ∷ vs) r h =
      let (first, f_eq, h1) = >>=-eq-ok (candidate models seen v) _ h in
      let (rest, r_eq, h2) = >>=-eq-ok (candidates_from models first.1 vs) _ h1 in
      subst (λ r. All IsCandidate r.0) (ok-injective h2)
        (candidate-IsCandidate seen v first f_eq, candidates_from-IsCandidate first.1 vs rest r_eq)

  pub candidate_list-IsCandidates :
      (seen : List String) (v : Json) (r : List StackCandidate × List String)
      → candidate_list models seen v ≡ ok r
      → IsCandidates r.0
  unfolding candidate_list
  candidate_list-IsCandidates seen v r h =
      let (vs, _, h1) = >>=-eq-ok (items_of no_candidates v) _ h in
      let (found, f_eq, h2) = >>=-eq-ok (candidates_from models seen vs) _ h1 in
      let each = candidates_from-IsCandidate seen vs found f_eq in
      record {
        each = ground (arith, h2, each);
        models_once = ground (arith, h2);
        routes_once = ground (arith, h2);
        family = ground (arith, h2);
      }
