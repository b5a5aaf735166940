-- ===== src/ModelStacks/Serialize.antt =====
-- stack_definition.py: `serialize_model_stacks`.
use orichum.Base.{List, [], ◌∷◌, map, nat_eq, string_eq, pos}
use orichum.Base.Sort.{sorted}
use orichum.Json.{Json, int, str, object, array}
use orichum.ModelRouting.{roles}
use orichum.ModelStacks.{ModelDefinition, StackCandidate, Definition, NormalizedStacks, by_key}
use orichum.ModelStacks.Normalize.{agent_candidates}

unfoldable pub serialize_candidate : StackCandidate → Json
serialize_candidate c =
    object
      (("id", str c.id) ∷ ("model", str c.model) ∷ ("providers", array (map str c.providers)) ∷ [])

unfoldable pub serialize_candidates : List StackCandidate → Json
serialize_candidates cs = array (map serialize_candidate cs)

unfoldable pub serialize_model : ModelDefinition → Json
serialize_model m = object (
    ("family", str m.family)
    ∷ ("routes", object (map (λ r. (r.0, str r.1)) (sorted by_key m.routes)))
    ∷ [])

unfoldable pub serialize_stack : Definition → Json
serialize_stack s = object (
    ("controller", serialize_candidates s.controller)
    ∷ (
      "agents",
      object (map (λ role. (role, serialize_candidates (agent_candidates s.agents role))) roles),
    )
    ∷ [])

unfoldable pub serialize_model_stacks : NormalizedStacks → Json
serialize_model_stacks v = object (
    ("schemaVersion", int (pos 2))
    ∷ ("defaultStack", str v.default_stack)
    ∷ ("models", object (map (λ m. (m.0, serialize_model m.1)) (sorted by_key v.models)))
    ∷ ("stacks", object (map (λ s. (s.0, serialize_stack s.1)) (sorted by_key v.stacks)))
    ∷ [])
