-- ===== src/ModelRouting/Valid.antt =====
-- What `validate_routing_document` accepts: a default that names a stack, and for each stack a
-- name, a controller and, for each role, distinct candidates of the right form.
use orichum.Base.{String, true, ◌≡◌, ◌≢◌, List, [], ◌∷◌, arith, All, string_eq, nat_eq}
use orichum.Base.Dict.{Dict, keys, has_key}
use orichum.Base.Result.{ok, guard, >>=-eq-ok}
use orichum.Json.{Json, nil, cons, str, arr, items, item}
use orichum.Account.Registry.{distinct}
use orichum.ModelRouting.{
  Stack, Document, bad_version, is_version_1, roles, is_stack_name, is_model_id, exact_object,
  validate_stack_name, validate_model_id, validate_models, role_candidates, normalize_agents,
  agents_of, validate_stack, validate_stacks, stacks_of, validate_routing_document,
}

pub record IsCandidates (cs : List String) : Type 0 where
  pub some_given : cs ≢ []
  pub models : All (λ m. is_model_id m ≡ true) cs
  pub once : distinct cs ≡ true

pub record IsStack (entry : String × Stack) : Type 0 where
  pub name : is_stack_name entry.0 ≡ true
  pub controller : is_model_id entry.1.controller ≡ true
  pub roles_given : keys entry.1.agents ≡ roles
  pub candidates : All (λ e. IsCandidates e.1) entry.1.agents

pub record IsDocument (doc : Document) : Type 0 where
  pub default : has_key doc.default_stack doc.stacks ≡ true
  pub stacks : All IsStack doc.stacks

validate_model_id-ok :
    (v : Json) (label s : String) → validate_model_id v label ≡ ok s → is_model_id s ≡ true
unfolding validate_model_id
validate_model_id-ok (str t) label s h = ground arith
validate_model_id-ok v label s h = ground arith

validate_stack_name-ok :
    (v : Json) (s : String) → validate_stack_name v ≡ ok s → is_stack_name s ≡ true
unfolding validate_stack_name
validate_stack_name-ok (str t) s h = ground arith
validate_stack_name-ok v s h = ground arith

validate_models-ok :
    (vs : List Json) (label : String) (ms : List String)
    → validate_models vs label ≡ ok ms
    → All (λ m. is_model_id m ≡ true) ms
unfolding validate_models
validate_models-ok [] label ms h = ground arith
validate_models-ok (v ∷ vs) label [] h = tt
validate_models-ok (v ∷ vs) label (m ∷ ms) h =
    ground (arith, validate_model_id-ok v label m, validate_models-ok vs label ms)

validate_models-cons :
    (v : Json) (vs : List Json) (label : String) → validate_models (v ∷ vs) label ≢ ok []
unfolding validate_models
validate_models-cons v vs label h = ground arith

role_candidates-ok :
    (role : String) (v : Json) (cs : List String) → role_candidates role v ≡ ok cs → IsCandidates cs
unfolding role_candidates
role_candidates-ok role (arr nil) cs h = ground arith
role_candidates-ok role (arr (cons x xs)) [] h =
    ground (arith, validate_models-cons x (items xs) role)
role_candidates-ok role (arr (cons x xs)) (c ∷ cs) h =
    ground (arith, validate_models-ok (x ∷ items xs) role (c ∷ cs))
role_candidates-ok role v cs h = ground arith

normalize_agents-keys :
    (rs : List String) (d : Dict String Json) (a : Dict String (List String))
    → normalize_agents rs d ≡ ok a
    → keys a ≡ rs
unfolding normalize_agents
normalize_agents-keys [] d a h = ground arith
normalize_agents-keys (r ∷ rs) d [] h = ground arith
normalize_agents-keys (r ∷ rs) d (e ∷ a) h = ground (arith, normalize_agents-keys rs d a)

normalize_agents-ok :
    (rs : List String) (d : Dict String Json) (a : Dict String (List String))
    → normalize_agents rs d ≡ ok a
    → All (λ e. IsCandidates e.1) a
unfolding normalize_agents
normalize_agents-ok [] d a h = ground arith
normalize_agents-ok (r ∷ rs) d [] h = tt
normalize_agents-ok (r ∷ rs) d (e ∷ a) h =
    ground (arith, role_candidates-ok r (item r d) e.1, normalize_agents-ok rs d a)

-- The members of `entry` that the loop's body sets.
validate_agents-ok :
    (d : Dict String Json) (a : Dict String (List String))
    → normalize_agents roles d ≡ ok a
    → (keys a ≡ roles) × All (λ e. IsCandidates e.1) a
validate_agents-ok d a h = (normalize_agents-keys roles d a h, normalize_agents-ok roles d a h)

validate_stack-IsStack :
    (n : String) (v : Json) (entry : String × Stack) → validate_stack n v ≡ ok entry → IsStack entry
unfolding validate_stack
validate_stack-IsStack n v entry h =
    let (name, name_eq, h1) = >>=-eq-ok (validate_stack_name (str n)) _ h in
    let (stack, stack_eq, h2) =
      >>=-eq-ok (exact_object v ("controller" ∷ "agents" ∷ []) name) _ h1 in
    let (m, m_eq, h3) = >>=-eq-ok (validate_model_id (item "controller" stack) "controller") _ h2 in
    let (agents, agents_eq, h4) = >>=-eq-ok (agents_of (item "agents" stack)) _ h3 in
    let (normal, normal_eq, h5) = >>=-eq-ok (normalize_agents roles agents) _ h4 in
    ground (
      arith,
      h5,
      validate_stack_name-ok (str n) name name_eq,
      validate_model_id-ok (item "controller" stack) "controller" m m_eq,
      validate_agents-ok agents normal normal_eq,
    )

validate_stacks-IsStack :
    (d : Dict String Json) (s : Dict String Stack) → validate_stacks d ≡ ok s → All IsStack s
unfolding validate_stacks
validate_stacks-IsStack [] s h = ground arith
validate_stacks-IsStack ((n, v) ∷ d) [] h = tt
validate_stacks-IsStack ((n, v) ∷ d) (e ∷ s) h =
    ground (arith, validate_stack-IsStack n v e, validate_stacks-IsStack d s)

-- A document that is accepted has a default stack among its stacks, and in each stack a name and
-- a controller of the right form and, for each of the six roles and no other, a non-empty list of
-- distinct model IDs.
pub validate_routing_document-IsDocument :
    (raw : Json) (doc : Document) → validate_routing_document raw ≡ ok doc → IsDocument doc
unfolding validate_routing_document
validate_routing_document-IsDocument raw doc h =
    let (d, d_eq, h1) =
      >>=-eq-ok (exact_object raw ("schemaVersion" ∷ "defaultStack" ∷ "stacks" ∷ []) "routing") _
        h in
    let (u, u_eq, h2) =
      >>=-eq-ok (guard (is_version_1 (item "schemaVersion" d)) bad_version) _ h1 in
    let (default, default_eq, h3) = >>=-eq-ok (validate_stack_name (item "defaultStack" d)) _ h2 in
    let (raw_stacks, raw_eq, h4) = >>=-eq-ok (stacks_of (item "stacks" d)) _ h3 in
    let (stacks, stacks_eq, h5) = >>=-eq-ok (validate_stacks raw_stacks) _ h4 in
    ground (arith, h5, validate_stacks-IsStack raw_stacks stacks stacks_eq)
