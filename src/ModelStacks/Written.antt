-- ===== src/ModelStacks/Written.antt =====
-- The models and the candidates that `serialize_model_stacks` writes are read again.
use orichum.Base.{
  String, true, false, ◌≡◌, ◌≢◌, List, [], ◌∷◌, arith, All, map, string_eq, nat_eq, refl, ap,
  contains,
}
use orichum.Base.Dict.{Dict, lookup}
use orichum.Base.Result.{ok}
use orichum.Base.Sort.{sorted}
use orichum.Json.{
  Json, str, item, array, object, has_exactly, items-from_items, entries-from_entries,
}
use orichum.Account.{is_identifier}
use orichum.Account.Registry.{distinct}
use orichum.ModelRouting.{is_model_id, is_stack_name, validate_model_id, validate_stack_name}
use orichum.ModelStacks.{
  StackError, ModelDefinition, StackCandidate, version_2, is_candidate_id, exact, identifier,
  reraised, model_id, stack_name, fields_of, items_of, by_key, parse_routes, parse_definition,
  parse_model, parse_entries, identifiers, one_family,
}
use orichum.ModelStacks.Normalize.{
  add_ids, candidate_text, candidate, candidates_from, candidate_list,
}
use orichum.ModelStacks.Serialize.{serialize_candidate, serialize_candidates, serialize_model}
use orichum.ModelStacks.Parsed.{IsModel}
use orichum.ModelStacks.Valid.{IsCandidate, IsCandidates}
use orichum.ModelStacks.Fresh.{Fresh}

-- What a candidate of a document of version 2 has besides its routes.
pub record IsWritten (c : StackCandidate) : Type 0 where
  pub id_ok : is_candidate_id c.id ≡ true
  pub model_ok : is_model_id c.model ≡ true
  pub forms : All (λ p. is_identifier p ≡ true) c.providers
  pub once : distinct c.providers ≡ true

identifier-str : (s : String) → is_identifier s ≡ true → identifier (str s) ≡ ok s
unfolding identifier
identifier-str s h = ground (arith, h)

pub model_id-str : (s : String) → is_model_id s ≡ true → model_id (str s) ≡ ok s
unfolding model_id reraised validate_model_id
model_id-str s h = ground (arith, h)

pub stack_name-str : (s : String) → is_stack_name s ≡ true → stack_name (str s) ≡ ok s
unfolding stack_name reraised validate_stack_name
stack_name-str s h = ground (arith, h)

identifiers-str :
    (ps : List String) → All (λ p. is_identifier p ≡ true) ps → identifiers (map str ps) ≡ ok ps
unfolding identifiers
identifiers-str [] h = refl
identifiers-str (p ∷ ps) h = ground (arith, identifier-str p h.0, identifiers-str ps h.1)

items_of-array :
    (e : StackError) (v : Json) (vs : List Json) → items_of e (array (v ∷ vs)) ≡ ok (v ∷ vs)
unfolding items_of
items_of-array e v vs = ap (λ l. ok (v ∷ l)) (items-from_items vs)

pub fields_of-object :
    (e : StackError) (d : Dict String Json) → d ≢ [] → fields_of e (object d) ≡ ok d
unfolding fields_of
fields_of-object e [] n = absurd (n refl)
fields_of-object e ((k, v) ∷ d) n = ap (λ l. ok ((k, v) ∷ l)) (entries-from_entries d)

strings-array :
    (e : StackError) (ps : List String)
    → ps ≢ []
    → items_of e (array (map str ps)) ≡ ok (map str ps)
strings-array e [] n = absurd (n refl)
strings-array e (p ∷ ps) n = items_of-array e (str p) (map str ps)

abbrev pub candidate_fields : StackCandidate → Dict String Json
candidate_fields c =
    ("id", str c.id) ∷ ("model", str c.model) ∷ ("providers", array (map str c.providers)) ∷ []

pub exact-candidate :
    (c : StackCandidate)
    → exact (serialize_candidate c) ("id" ∷ "model" ∷ "providers" ∷ []) ≡ ok (candidate_fields c)
unfolding exact serialize_candidate has_exactly string_eq
exact-candidate c = refl

pub candidate-items :
    (c : StackCandidate)
    → (item "id" (candidate_fields c) ≡ str c.id)
      × (item "model" (candidate_fields c) ≡ str c.model)
      × (item "providers" (candidate_fields c) ≡ array (map str c.providers))
unfolding item lookup string_eq
candidate-items c = (refl, refl, refl)

candidate_text-str : (s : String) → is_candidate_id s ≡ true → candidate_text (str s) ≡ ok s
unfolding candidate_text
candidate_text-str s h = ground (arith, h)

module _ (models : Dict String ModelDefinition) where
  candidate-serialize :
      (seen : List String) (c : StackCandidate)
      → IsCandidate models c
      → IsWritten c
      → contains seen c.id ≡ false
      → candidate models seen (serialize_candidate c) ≡ ok (c, c.id ∷ seen)
  unfolding candidate
  candidate-serialize seen c h w new =
      let (i, m, p) = candidate-items c in
      rw (exact-candidate c) (
        rw (i, m, p)
          (rw (candidate_text-str c.id w.id_ok) (
            rw (new, model_id-str c.model w.model_ok)
              (rw (h.known, strings-array _ c.providers h.given)
                (rw (identifiers-str c.providers w.forms) (rw (w.once, h.routed) refl))))))

  candidates_from-serialize :
      (seen : List String) (cs : List StackCandidate)
      → All (IsCandidate models) cs
      → All IsWritten cs
      → Fresh seen cs
      → candidates_from models seen (map serialize_candidate cs) ≡ ok (cs, add_ids seen cs)
  unfolding candidates_from add_ids
  candidates_from-serialize seen [] h w f = refl
  candidates_from-serialize seen (c ∷ cs) h w f =
      rw (candidate-serialize seen c h.0 w.0 f.0)
        (rw (candidates_from-serialize (c.id ∷ seen) cs h.1 w.1 f.1) refl)

  pub candidate_list-serialize :
      (seen : List String) (cs : List StackCandidate)
      → IsCandidates models cs
      → All IsWritten cs
      → Fresh seen cs
      → candidate_list models seen (serialize_candidates cs) ≡ ok (cs, add_ids seen cs)
  unfolding candidate_list serialize_candidates one_family
  candidate_list-serialize seen [] h w f = absurd (let bad : false ≡ true = h.family in cc)
  candidate_list-serialize seen (c ∷ cs) h w f =
      rw (items_of-array _ (serialize_candidate c) (map serialize_candidate cs)) (
        rw (candidates_from-serialize seen (c ∷ cs) h.each w f)
          (rw (h.models_once, h.routes_once, h.family) refl))

parse_routes-str :
    (r : Dict String String)
    → All (λ e. (is_identifier e.0 ≡ true) × (is_model_id e.1 ≡ true)) r
    → parse_routes (map (λ e. (e.0, str e.1)) r) ≡ ok r
unfolding parse_routes
parse_routes-str [] h = refl
parse_routes-str ((p, u) ∷ r) h =
    rw (identifier-str p h.0.0, model_id-str u h.0.1) (rw (parse_routes-str r h.1) refl)

map-given : {A B : Type 0} (f : A → B) (l : List A) → l ≢ [] → map f l ≢ []
map-given f [] n = λ e. n refl
map-given f (x ∷ l) n = λ e. cc

abbrev model_fields : ModelDefinition → Dict String Json
model_fields m =
    ("family", str m.family)
    ∷ ("routes", object (map (λ r. (r.0, str r.1)) (sorted by_key m.routes)))
    ∷ []

exact-model :
    (m : ModelDefinition)
    → exact (serialize_model m) ("family" ∷ "routes" ∷ []) ≡ ok (model_fields m)
unfolding exact serialize_model has_exactly string_eq
exact-model m = refl

model-items :
    (m : ModelDefinition)
    → (item "family" (model_fields m) ≡ str m.family)
      × (item "routes" (model_fields m)
          ≡ object (map (λ r. (r.0, str r.1)) (sorted by_key m.routes)))
unfolding item lookup string_eq
model-items m = (refl, refl)

parse_model-serialize :
    (n : String) (m : ModelDefinition)
    → IsModel (n, m)
    → sorted by_key m.routes ≡ m.routes
    → parse_model version_2 n (serialize_model m) ≡ ok (n, m)
unfolding parse_model parse_definition
parse_model-serialize n m h s =
    let (f, r) = model-items m in
    rw (exact-model m, model_id-str n h.name)
      (rw (f, r, s)
        (rw
          (fields_of-object _ (map (λ r. (r.0, str r.1)) m.routes)
            (map-given (λ r. (r.0, str r.1)) m.routes h.given))
          (rw (parse_routes-str m.routes h.routed, identifier-str m.family h.family) (rw s refl))))

pub parse_entries-serialize :
    (ms : Dict String ModelDefinition)
    → All IsModel ms
    → All (λ m. sorted by_key m.1.routes ≡ m.1.routes) ms
    → parse_entries version_2 (map (λ m. (m.0, serialize_model m.1)) ms) ≡ ok ms
unfolding parse_entries
parse_entries-serialize [] h s = refl
parse_entries-serialize ((n, m) ∷ ms) h s =
    rw (parse_model-serialize n m h.0 s.0) (rw (parse_entries-serialize ms h.1 s.1) refl)
