-- ===== src/ModelStacks/Parsed.antt =====
-- The models of an accepted document, and the pieces that the parsing of a candidate returns.
use orichum.Base.{String, true, ◌≡◌, ◌≢◌, List, [], ◌∷◌, arith, All, string_eq, nat_eq, subst}
use orichum.Base.Dict.{Dict}
use orichum.Base.Result.{ok, >>=-eq-ok, ok-injective}
use orichum.Base.Sort.{sorted, sorted-All, sorted-given}
use orichum.Json.{Json, nil, cons, str, arr, obj, end, field, item}
use orichum.Account.{is_identifier}
use orichum.ModelRouting.{is_model_id, validate_model_id}
use orichum.ModelStacks.{
  StackError, ModelDefinition, Schema, version_1, version_2, exact, identifier, reraised, model_id,
  fields_of, items_of, by_key, parse_routes, parse_definition, parse_model, parse_entries,
  parse_models, no_routes, no_models,
}

pub record IsModel (entry : String × ModelDefinition) : Type 0 where
  pub name : is_model_id entry.0 ≡ true
  pub family : is_identifier entry.1.family ≡ true
  pub given : entry.1.routes ≢ []
  pub routed : All (λ r. (is_identifier r.0 ≡ true) × (is_model_id r.1 ≡ true)) entry.1.routes

pub identifier-ok : (v : Json) (s : String) → identifier v ≡ ok s → is_identifier s ≡ true
unfolding identifier
identifier-ok (str t) s h = ground arith
identifier-ok v s h = ground arith

pub model_id-ok : (v : Json) (s : String) → model_id v ≡ ok s → is_model_id s ≡ true
unfolding model_id reraised validate_model_id
model_id-ok (str t) s h = ground arith
model_id-ok v s h = ground arith

pub items_of-ok : (e : StackError) (v : Json) (vs : List Json) → items_of e v ≡ ok vs → vs ≢ []
unfolding items_of
items_of-ok e (arr nil) vs h = ground arith
items_of-ok e (arr (cons x xs)) vs h = ground arith
items_of-ok e v vs h = ground arith

fields_of-ok : (e : StackError) (v : Json) (d : Dict String Json) → fields_of e v ≡ ok d → d ≢ []
unfolding fields_of
fields_of-ok e (obj end) d h = ground arith
fields_of-ok e (obj (field k x xs)) d h = ground arith
fields_of-ok e v d h = ground arith

parse_routes-ok :
    (d : Dict String Json) (r : Dict String String)
    → parse_routes d ≡ ok r
    → All (λ e. (is_identifier e.0 ≡ true) × (is_model_id e.1 ≡ true)) r
unfolding parse_routes
parse_routes-ok [] r h = ground arith
parse_routes-ok ((p, v) ∷ d) [] h = tt
parse_routes-ok ((p, v) ∷ d) (e ∷ r) h =
    ground (arith, identifier-ok (str p) e.0, model_id-ok v e.1, parse_routes-ok d r)

parse_routes-given :
    (d : Dict String Json) (r : Dict String String) → parse_routes d ≡ ok r → d ≢ [] → r ≢ []
unfolding parse_routes
parse_routes-given [] r h n = ground arith
parse_routes-given ((p, v) ∷ d) r h n = ground arith

parse_definition-ok :
    (s : Schema) (v : Json) (r : Dict String String) (f : Json)
    → parse_definition s v ≡ ok (r, f)
    → (r ≢ []) × All (λ e. (is_identifier e.0 ≡ true) × (is_model_id e.1 ≡ true)) r
unfolding parse_definition
parse_definition-ok version_1 v r f h =
    let (d, _, h1) = >>=-eq-ok (exact v ("provider" ∷ "family" ∷ "upstream" ∷ [])) _ h in
    let (p, p_eq, h2) = >>=-eq-ok (identifier (item "provider" d)) _ h1 in
    let (u, u_eq, h3) = >>=-eq-ok (model_id (item "upstream" d)) _ h2 in
    ground
      (arith, h3, identifier-ok (item "provider" d) p p_eq, model_id-ok (item "upstream" d) u u_eq)
parse_definition-ok version_2 v r f h =
    let (d, _, h1) = >>=-eq-ok (exact v ("family" ∷ "routes" ∷ [])) _ h in
    let (raw, raw_eq, h2) = >>=-eq-ok (fields_of no_routes (item "routes" d)) _ h1 in
    let (routes, routes_eq, h3) = >>=-eq-ok (parse_routes raw) _ h2 in
    ground (
      arith,
      h3,
      parse_routes-ok raw routes routes_eq,
      parse_routes-given raw routes routes_eq (fields_of-ok no_routes (item "routes" d) raw raw_eq),
    )

model-IsModel :
    (m f : String) (r : Dict String String)
    → is_model_id m ≡ true
    → is_identifier f ≡ true
    → (r ≢ []) × All (λ e. (is_identifier e.0 ≡ true) × (is_model_id e.1 ≡ true)) r
    → IsModel (m, record { family = f; routes = sorted by_key r })
model-IsModel m f r a b (n, l) = record {
  name = a;
  family = b;
  given = sorted-given by_key r n;
  routed = sorted-All by_key (λ e. (is_identifier e.0 ≡ true) × (is_model_id e.1 ≡ true)) r l;
}

parse_model-IsModel :
    (s : Schema) (n : String) (v : Json) (e : String × ModelDefinition)
    → parse_model s n v ≡ ok e
    → IsModel e
unfolding parse_model
parse_model-IsModel s n v e h =
    let (m, m_eq, h1) = >>=-eq-ok (model_id (str n)) _ h in
    let (r, r_eq, h2) = >>=-eq-ok (parse_definition s v) _ h1 in
    let (f, f_eq, h3) = >>=-eq-ok (identifier r.1) _ h2 in
    subst IsModel (ok-injective h3) (
      model-IsModel m f r.0 (model_id-ok (str n) m m_eq) (identifier-ok r.1 f f_eq)
        (parse_definition-ok s v r.0 r.1 r_eq))

pub parse_entries-IsModel :
    (s : Schema) (d : Dict String Json) (ms : Dict String ModelDefinition)
    → parse_entries s d ≡ ok ms
    → All IsModel ms
unfolding parse_entries
parse_entries-IsModel s [] ms h = ground arith
parse_entries-IsModel s ((n, v) ∷ d) [] h = tt
parse_entries-IsModel s ((n, v) ∷ d) (e ∷ ms) h =
    ground (arith, parse_model-IsModel s n v e, parse_entries-IsModel s d ms)

pub parse_models-IsModel :
    (s : Schema) (v : Json) (ms : Dict String ModelDefinition)
    → parse_models s v ≡ ok ms
    → All IsModel ms
unfolding parse_models
parse_models-IsModel s v ms h =
    let (d, _, h1) = >>=-eq-ok (fields_of no_models v) _ h in parse_entries-IsModel s d ms h1
