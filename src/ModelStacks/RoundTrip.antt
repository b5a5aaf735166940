-- ===== src/ModelStacks/RoundTrip.antt =====
-- `serialize_model_stacks` and `normalize_model_stacks` are inverse on canonical documents.
use orichum.Base.{
  ℕ, String, true, false, ◌≡◌, ◌≢◌, List, [], ◌∷◌, All, map, string_eq, nat_eq, refl, contains, any,
  pos,
}
use orichum.Base.Dict.{Dict, lookup, has_key}
use orichum.Base.Result.{ok}
use orichum.Base.Sort.{sorted}
use orichum.Json.{Json, str, int, item, object, has_exactly}
use orichum.Account.Registry.{distinct}
use orichum.ModelRouting.{is_stack_name}
use orichum.ModelStacks.{
  ModelDefinition, StackCandidate, Definition, NormalizedStacks, version_2, exact, by_key,
  parse_models,
}
use orichum.ModelStacks.Normalize.{parse_stacks, schema_of, normalize_model_stacks}
use orichum.ModelStacks.Serialize.{serialize_model, serialize_stack, serialize_model_stacks}
use orichum.ModelStacks.Accepted.{IsNormalized}
use orichum.ModelStacks.Fresh.{ids, distinct-Fresh}
use orichum.ModelStacks.Unique.{all_candidates}
use orichum.ModelStacks.Written.{
  IsWritten, stack_name-str, fields_of-object, parse_entries-serialize,
}
use orichum.ModelStacks.WrittenStacks.{stacks_from-serialize}

-- The form of a document that was written: in order, with names and IDs of the right form, and with
-- no ID twice.
pub record IsCanonical (v : NormalizedStacks) : Type 0 where
  pub default_ok : is_stack_name v.default_stack ≡ true
  pub some_models : v.models ≢ []
  pub models_sorted : sorted by_key v.models ≡ v.models
  pub routes_sorted : All (λ m. sorted by_key m.1.routes ≡ m.1.routes) v.models
  pub stacks_sorted : sorted by_key v.stacks ≡ v.stacks
  pub names_ok : All (λ s. is_stack_name s.0 ≡ true) v.stacks
  pub written : All IsWritten (all_candidates v.stacks)
  pub ids_once : distinct (ids (all_candidates v.stacks)) ≡ true

map-given : {A B : Type 0} (f : A → B) (l : List A) → l ≢ [] → map f l ≢ []
map-given f [] n = λ e. n refl
map-given f (x ∷ l) n = λ e. cc

has_key-given : (k : String) (d : Dict String Definition) → has_key k d ≡ true → d ≢ []
unfolding has_key
has_key-given k [] h = cc
has_key-given k (x ∷ d) h = λ e. cc

abbrev document_fields : NormalizedStacks → Dict String Json
document_fields v =
    ("schemaVersion", int (pos 2))
    ∷ ("defaultStack", str v.default_stack)
    ∷ ("models", object (map (λ m. (m.0, serialize_model m.1)) (sorted by_key v.models)))
    ∷ ("stacks", object (map (λ s. (s.0, serialize_stack s.1)) (sorted by_key v.stacks)))
    ∷ []

exact-document :
    (v : NormalizedStacks)
    → exact (serialize_model_stacks v) ("schemaVersion" ∷ "defaultStack" ∷ "models" ∷ "stacks" ∷ [])
      ≡ ok (document_fields v)
unfolding exact serialize_model_stacks has_exactly string_eq
exact-document v = refl

document-items :
    (v : NormalizedStacks)
    → (schema_of (item "schemaVersion" (document_fields v)) ≡ ok version_2)
      × (item "defaultStack" (document_fields v) ≡ str v.default_stack)
      × (item "models" (document_fields v)
          ≡ object (map (λ m. (m.0, serialize_model m.1)) (sorted by_key v.models)))
      × (item "stacks" (document_fields v)
          ≡ object (map (λ s. (s.0, serialize_stack s.1)) (sorted by_key v.stacks)))
unfolding item lookup string_eq schema_of nat_eq
document-items v = (refl, refl, refl, refl)

models-serialize :
    (v : NormalizedStacks)
    → IsNormalized v
    → IsCanonical v
    → parse_models version_2 (object (map (λ m. (m.0, serialize_model m.1)) v.models)) ≡ ok v.models
unfolding parse_models
models-serialize v h c =
    rw
      (fields_of-object _
        (map (λ (m : String × ModelDefinition). (m.0, serialize_model m.1)) v.models)
        (map-given (λ m. (m.0, serialize_model m.1)) v.models c.some_models))
      (parse_entries-serialize v.models h.models c.routes_sorted)

none-seen : (cs : List StackCandidate) → any (λ c. contains [] c.id) cs ≡ false
none-seen [] = refl
none-seen (c ∷ cs) = none-seen cs

module _ (digest : String → String → ℕ → String → String) where
  stacks-serialize :
      (v : NormalizedStacks)
      → IsNormalized v
      → IsCanonical v
      → parse_stacks digest v.models version_2
          (object (map (λ s. (s.0, serialize_stack s.1)) v.stacks))
        ≡ ok v.stacks
  unfolding parse_stacks
  stacks-serialize v h c =
      rw
        (fields_of-object _ (map (λ (s : String × Definition). (s.0, serialize_stack s.1)) v.stacks)
          (map-given (λ s. (s.0, serialize_stack s.1)) v.stacks
            (has_key-given v.default_stack v.stacks h.default)))
        (rw
          (stacks_from-serialize digest v.models [] v.stacks c.names_ok h.stacks c.written (
            distinct-Fresh [] (all_candidates v.stacks) c.ids_once
              (none-seen (all_candidates v.stacks))))
          refl)

  -- A valid document in canonical form is read again, from what is written of it, as it was: with its
  -- default, its models and routes, and in each stack every candidate's ID, model and providers in
  -- their order.
  pub normalize_model_stacks-serialize :
      (v : NormalizedStacks)
      → IsNormalized v
      → IsCanonical v
      → normalize_model_stacks digest (serialize_model_stacks v) ≡ ok v
  unfolding normalize_model_stacks
  normalize_model_stacks-serialize v h c =
      let (i, d, m, s) = document-items v in
      rw (exact-document v) (
        rw (i, d, m, s)
          (rw (stack_name-str v.default_stack c.default_ok, c.models_sorted, c.stacks_sorted)
            (rw (models-serialize v h c, stacks-serialize v h c) (rw h.default refl))))
