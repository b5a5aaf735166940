-- ===== src/ModelStacks/Accepted.antt =====
-- What an accepted document of models and stacks is.
use orichum.Base.{
  String, true, false, ◌≡◌, List, [], ◌∷◌, arith, All, string_eq, nat_eq, refl, subst, sym, ap,
  contains, ◌++◌, ℕ, zero, Bool-cases, inl, inr, if◌then◌else◌, ◌∙◌, not, any,
}
use orichum.Base.Dict.{Dict, keys, has_key, insert}
use orichum.Base.Result.{ok, guard, >>=-eq-ok, ok-injective}
use orichum.Json.{Json, item, str, obj, entries, has_exactly}
use orichum.ModelRouting.{roles, legacy_roles}
use orichum.ModelStacks.{
  ModelDefinition, StackCandidate, Definition, NormalizedStacks, Schema, exact, stack_name,
  fields_of, parse_models, no_stacks, wrong_agents, repeated_id, missing_default,
}
use orichum.ModelStacks.Normalize.{
  planning_from, agent_candidates, scope_candidates, agents_from, add_planning, stack_agents,
  are_agents, parse_stack, stacks_from, parse_stacks, schema_of, normalize_model_stacks,
}
use orichum.ModelStacks.Parsed.{IsModel, parse_models-IsModel}
use orichum.ModelStacks.Valid.{IsCandidates}
use orichum.ModelStacks.Migrated.{has_key-lookup, scope-IsCandidates, planning-IsCandidates}

module _ (models : Dict String ModelDefinition) where
  pub record IsDefinition (entry : String × Definition) : Type 0 where
    pub name : entry.1.name ≡ entry.0
    pub controller : IsCandidates models entry.1.controller
    pub roles_given : keys entry.1.agents ≡ roles
    pub agents : All (λ e. IsCandidates models e.1) entry.1.agents

pub record IsNormalized (v : NormalizedStacks) : Type 0 where
  pub default : has_key v.default_stack v.stacks ≡ true
  pub models : All IsModel v.models
  pub stacks : All (IsDefinition v.models) v.stacks

has_key-contains : {V : Type 0} (k : String) (d : Dict String V) → has_key k d ≡ contains (keys d) k
unfolding has_key
has_key-contains k [] = refl
has_key-contains k ((j, v) ∷ d) = ground (arith, has_key-contains k d)

-- The keys after an entry was set.
abbrev with_key : List String → String → List String
with_key l k = if contains l k then l else l ++ k ∷ []

keys-insert :
    {V : Type 0} (k : String) (v : V) (d : Dict String V)
    → keys (insert k v d) ≡ with_key (keys d) k
unfolding insert
keys-insert k v [] = refl
keys-insert k v ((j, w) ∷ d) = ground (arith, keys-insert k v d)

legacy-architecture : contains legacy_roles "architecture-advisor" ≡ true
unfolding string_eq
legacy-architecture = refl

legacy-planning : with_key legacy_roles "planning-advisor" ≡ roles
unfolding string_eq
legacy-planning = refl

module _ (digest : String → String → ℕ → String → String) where
  module _ (models : Dict String ModelDefinition) (valid : All IsModel models) where
    abbrev AllCandidates : Dict String (List StackCandidate) → Type 0
    AllCandidates d = All (λ e. IsCandidates models e.1) d

    agents_from-ok :
        (s : Schema) (stack : String) (rs : List String) (d : Dict String Json) (seen : List String)
        (r : Dict String (List StackCandidate) × List String)
        → agents_from digest models s stack rs d seen ≡ ok r
        → (keys r.0 ≡ rs) × AllCandidates r.0
    unfolding agents_from
    agents_from-ok s stack [] d seen r h = ground arith
    agents_from-ok s stack (role ∷ rs) d seen r h =
        let (first, f_eq, h1) =
          >>=-eq-ok (scope_candidates digest models s stack role true seen (item role d)) _ h in
        let (more, m_eq, h2) = >>=-eq-ok (agents_from digest models s stack rs d first.1) _ h1 in
        let (k, a) = agents_from-ok s stack rs d first.1 more m_eq in
        subst (λ r. (keys r.0 ≡ role ∷ rs) × AllCandidates r.0) (ok-injective h2)
          (
            ap (λ t. role ∷ t) k,
            (
              scope-IsCandidates digest models valid s stack role true seen (item role d) first
                  f_eq,
              a,
            ),
          )

    insert-All :
        (k : String) (v : List StackCandidate) (d : Dict String (List StackCandidate))
        → IsCandidates models v
        → AllCandidates d
        → AllCandidates (insert k v d)
    unfolding insert
    insert-All k v [] h a = (h, tt)
    insert-All k v ((j, w) ∷ d) h a = ground (arith, insert-All k v d h a.1)

    add_planning-ok :
        (stack : String) (d : Dict String (List StackCandidate)) (seen : List String)
        (r : Dict String (List StackCandidate) × List String)
        → keys d ≡ legacy_roles
        → AllCandidates d
        → add_planning digest stack d seen ≡ ok r
        → (keys r.0 ≡ roles) × AllCandidates r.0
    unfolding add_planning agent_candidates
    add_planning-ok stack d seen r k a h =
        let there : has_key "architecture-advisor" d ≡ true =
          has_key-contains "architecture-advisor" d
          ∙ ap (λ l. contains l "architecture-advisor") k
          ∙ legacy-architecture in
        let (cs, e, c) =
          has_key-lookup (λ e. IsCandidates models e.1) "architecture-advisor" d a there in
        let architecture = agent_candidates d "architecture-advisor" in
        let same : architecture ≡ cs = ground (arith, e) in
        let planning = planning_from digest stack zero architecture in
        let (_, _, h1) =
          >>=-eq-ok (guard (not (any (λ c. contains seen c.id) planning)) repeated_id) _ h in
        subst (λ r. (keys r.0 ≡ roles) × AllCandidates r.0) (ok-injective h1)
          (
            keys-insert "planning-advisor" planning d
                ∙ ap (λ l. with_key l "planning-advisor") k
                ∙ legacy-planning,
            insert-All "planning-advisor" planning d
                (planning-IsCandidates digest models valid stack architecture
                  (subst (IsCandidates models) (sym same) c))
                a,
          )

    stack_agents-ok :
        (s : Schema) (stack : String) (v : Json) (seen : List String)
        (r : Dict String (List StackCandidate) × List String)
        → stack_agents digest models s stack v seen ≡ ok r
        → (keys r.0 ≡ roles) × AllCandidates r.0
    unfolding stack_agents
    stack_agents-ok s stack (obj fs) seen r h =
        elim (Bool-cases (has_exactly legacy_roles (entries fs))) [
          | inl e ↦
              let (q, q_eq, h1) =
                >>=-eq-ok (agents_from digest models s stack legacy_roles (entries fs) seen) _
                  (rw e at h) in
              let (k, a) = agents_from-ok s stack legacy_roles (entries fs) seen q q_eq in
              add_planning-ok stack q.0 q.1 r k a h1
          | inr e ↦ agents_from-ok s stack roles (entries fs) seen r (rw e at h)
        ]
    stack_agents-ok s stack v seen r h = ground arith

    parse_stack-IsDefinition :
        (s : Schema) (seen : List String) (n : String) (v : Json)
        (r : (String × Definition) × List String)
        → parse_stack digest models s seen n v ≡ ok r
        → IsDefinition models r.0
    unfolding parse_stack
    parse_stack-IsDefinition s seen n v r h =
        let (name, _, h1) = >>=-eq-ok (stack_name (str n)) _ h in
        let (d, _, h2) = >>=-eq-ok (exact v ("controller" ∷ "agents" ∷ [])) _ h1 in
        let (_, _, h3) = >>=-eq-ok (guard (are_agents (item "agents" d)) wrong_agents) _ h2 in
        let (first, f_eq, h4) =
          >>=-eq-ok
            (scope_candidates digest models s name "controller" false seen (item "controller" d)) _
            h3 in
        let (more, m_eq, h5) =
          >>=-eq-ok (stack_agents digest models s name (item "agents" d) first.1) _ h4 in
        let (k, a) = stack_agents-ok s name (item "agents" d) first.1 more m_eq in
        subst (λ r. IsDefinition models r.0) (ok-injective h5)
          (record {
            name = refl;
            controller =
                scope-IsCandidates digest models valid s name "controller" false seen
                  (item "controller" d) first f_eq;
            roles_given = k;
            agents = a;
          })

    stacks_from-IsDefinition :
        (s : Schema) (seen : List String) (d : Dict String Json)
        (r : Dict String Definition × List String)
        → stacks_from digest models s seen d ≡ ok r
        → All (IsDefinition models) r.0
    unfolding stacks_from
    stacks_from-IsDefinition s seen [] r h = ground arith
    stacks_from-IsDefinition s seen ((n, v) ∷ d) r h =
        let (first, f_eq, h1) = >>=-eq-ok (parse_stack digest models s seen n v) _ h in
        let (rest, r_eq, h2) = >>=-eq-ok (stacks_from digest models s first.1 d) _ h1 in
        subst (λ r. All (IsDefinition models) r.0) (ok-injective h2)
          (
            parse_stack-IsDefinition s seen n v first f_eq,
            stacks_from-IsDefinition s first.1 d rest r_eq,
          )

    parse_stacks-IsDefinition :
        (s : Schema) (v : Json) (r : Dict String Definition)
        → parse_stacks digest models s v ≡ ok r
        → All (IsDefinition models) r
    unfolding parse_stacks
    parse_stacks-IsDefinition s v r h =
        let (d, _, h1) = >>=-eq-ok (fields_of no_stacks v) _ h in
        let (found, f_eq, h2) = >>=-eq-ok (stacks_from digest models s [] d) _ h1 in
        subst (All (IsDefinition models)) (ok-injective h2)
          (stacks_from-IsDefinition s [] d found f_eq)

  -- A document that is accepted, in either schema version, has a default stack among its stacks and
  -- models with routes and IDs of the right form. Each stack has candidates for its controller and for
  -- each of the six roles and no other: each candidate is of a known model and names at least one
  -- provider, all with a route of the model, and one list has no model twice, no route twice and one
  -- family.
  pub normalize_model_stacks-IsNormalized :
      (raw : Json) (v : NormalizedStacks)
      → normalize_model_stacks digest raw ≡ ok v
      → IsNormalized v
  unfolding normalize_model_stacks
  normalize_model_stacks-IsNormalized raw v h =
      let (d, _, h1) =
        >>=-eq-ok (exact raw ("schemaVersion" ∷ "defaultStack" ∷ "models" ∷ "stacks" ∷ [])) _ h in
      let (s, _, h2) = >>=-eq-ok (schema_of (item "schemaVersion" d)) _ h1 in
      let (default, _, h3) = >>=-eq-ok (stack_name (item "defaultStack" d)) _ h2 in
      let (models, m_eq, h4) = >>=-eq-ok (parse_models s (item "models" d)) _ h3 in
      let (stacks, s_eq, h5) = >>=-eq-ok (parse_stacks digest models s (item "stacks" d)) _ h4 in
      let (_, known, h6) = >>=-eq-ok (guard (has_key default stacks) missing_default) _ h5 in
      let valid = parse_models-IsModel s (item "models" d) models m_eq in
      subst IsNormalized (ok-injective h6) (record {
        default = ground (arith, known);
        models = valid;
        stacks = parse_stacks-IsDefinition models valid s (item "stacks" d) stacks s_eq;
      })
