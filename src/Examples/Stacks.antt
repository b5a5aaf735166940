-- ===== src/Examples/Stacks.antt =====
-- The routing document's theorems at one stack.
use orichum.Base.{String, ◌≡◌, ◌⊎◌, refl, none, some, List, [], ◌∷◌, string_eq, nat_eq, pos, map}
use orichum.Base.Dict.{Dict, lookup, insert, has_key}
use orichum.Base.Result.{ok, err}
use orichum.Base.Text.{matches, is_lower, is_upper, is_digit, is_alnum, size, every}
use orichum.Json.{Json, int, str, object, array, has_exactly, item}
use orichum.Account.Registry.{distinct}
use orichum.ModelRouting
use orichum.ModelRouting.{
  RoutingError, Stack, Document, StackDefinition, Routing, document, EffectiveStack, unavailable,
  missing_stack, is_stack_name, is_model_id, exact_object, validate_stack_name, validate_model_id,
  validate_models, role_candidates, normalize_agents, agents_of, validate_stack, validate_stacks,
  stacks_of, is_version_1, validate_routing_document, first_available, candidates_of, select_agents,
  stack_name, effective, resolve_effective,
}
use orichum.ModelRouting.Resolved.{
  IsEffective, IsUnavailable, name_of, stack_of, resolve_effective-ok, resolve_effective-err,
}

abbrev models : List Json
models = str "gpt" ∷ str "opus" ∷ []

-- A legacy stack: it has no planning advisor.
abbrev raw : Json
raw = object (
    ("schemaVersion", int (pos 1))
    ∷ ("defaultStack", str "main")
    ∷ (
      "stacks",
      object (
          (
            "main",
            object (
                ("controller", str "opus")
                ∷ (
                  "agents",
                  object (
                      ("repository-explorer", array models)
                      ∷ ("repository-verifier", array models)
                      ∷ ("correctness-critic", array models)
                      ∷ ("architecture-advisor", array models)
                      ∷ ("implementation-worker", array models)
                      ∷ []),
                )
                ∷ []),
          )
          ∷ []),
    )
    ∷ [])

abbrev of_roles : {A : Type 0} → A → Dict String A
of_roles a = map (λ r. (r, a)) ModelRouting.roles

abbrev parsed : Document
parsed = record {
  default_stack = "main";
  stacks = ("main", record { controller = "opus"; agents = of_roles ("gpt" ∷ "opus" ∷ []) }) ∷ [];
}

accepted : validate_routing_document raw ≡ ok parsed
unfolding validate_routing_document validate_stacks validate_stack validate_stack_name
    validate_model_id validate_models role_candidates normalize_agents agents_of stacks_of
    is_version_1 exact_object is_stack_name is_model_id matches is_lower is_upper is_digit is_alnum
    size every distinct has_exactly item lookup insert has_key string_eq nat_eq
accepted = refl

abbrev chosen : EffectiveStack
chosen = record {
  stack_name = "main";
  controller = "opus";
  candidates = of_roles ("gpt" ∷ "opus" ∷ []);
  agents = of_roles "opus";
}

resolved : resolve_effective (document parsed) ("opus" ∷ []) none ≡ ok chosen
unfolding resolve_effective effective select_agents candidates_of first_available stack_name lookup
    string_eq
resolved = refl

resolve_effective-ok_example :
    (stack : StackDefinition) × (stack_of (document parsed) (name_of (document parsed) none)
      ≡ some stack)
    × IsEffective ("opus" ∷ []) (name_of (document parsed) none) stack chosen
resolve_effective-ok_example =
    resolve_effective-ok (document parsed) ("opus" ∷ []) none chosen resolved

refused :
    resolve_effective (document parsed) ("gpt" ∷ []) none ≡ err (unavailable "main" "controller")
unfolding resolve_effective effective stack_name lookup string_eq
refused = refl

resolve_effective-err_example :
    ((stack_of (document parsed) (name_of (document parsed) none) ≡ none)
      × (unavailable "main" "controller" ≡ missing_stack (name_of (document parsed) none)))
    ⊎ ((stack : StackDefinition) × (stack_of (document parsed) (name_of (document parsed) none)
          ≡ some stack)
        × IsUnavailable
            ("gpt" ∷ [])
            (name_of (document parsed) none)
            stack
            (unavailable "main" "controller"))
resolve_effective-err_example =
    resolve_effective-err (document parsed) ("gpt" ∷ []) none (unavailable "main" "controller")
      refused
