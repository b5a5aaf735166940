-- ===== src/ModelRouting/Resolved.antt =====
-- The models that a stack's roles get.
use orichum.Base.{
  String, true, false, not, all, ap, sym, ◌∙◌, ◌++◌, ◌≡◌, refl, Option, none, some, List, [], ◌∷◌,
  arith, In, contains, string_eq, find, find-eq_none, Option-cases, Bool-cases, inl, inr, ◌⊎◌,
  if◌then◌else◌,
}
use orichum.Base.Dict.{Dict, lookup}
use orichum.Base.Result.{ok, err}
use orichum.ModelRouting.{
  RoutingError, unavailable, missing_stack, Stack, StackDefinition, Routing, normalized, document,
  EffectiveStack, roles, first_available, candidates_of, by_role, select_agents, stack_name,
  effective, resolve_effective,
}

-- The first candidate that the catalogue has.
pub record IsFirst (catalogue candidates : List String) (m : String) : Type 0 where
  pub before : List String
  pub after : List String
  pub split : candidates ≡ before ++ m ∷ after
  pub none_before : all (λ c. not (contains catalogue c)) before ≡ true
  pub available : contains catalogue m ≡ true

first_available-IsFirst :
    (catalogue candidates : List String) (m : String)
    → first_available catalogue candidates ≡ some m
    → IsFirst catalogue candidates m
unfolding first_available
first_available-IsFirst catalogue [] m h = ground arith
first_available-IsFirst catalogue (c ∷ cs) m h = elim (Bool-cases (contains catalogue c)) [
  | inl e ↦
      let q : c ≡ m = ground arith in
      record {
        before = [];
        after = cs;
        split = ap (λ x. x ∷ cs) q;
        none_before = refl;
        available = ap (contains catalogue) (sym q) ∙ e;
      }
  | inr e ↦
      let f = first_available-IsFirst catalogue cs m (ground arith) in
      record {
        before = c ∷ f.before;
        after = f.after;
        split = ap (λ x. c ∷ x) f.split;
        none_before = ground (arith, f.none_before);
        available = f.available;
      }
]

-- Each of the given roles got the first candidate that the catalogue has, and no other role got
-- a model.
abbrev pub Resolved :
    List String → List String → Dict String (List String) → Dict String String → Type 0
Resolved catalogue [] agents [] = Unit
Resolved catalogue [] agents (e ∷ selected) = ⊥
Resolved catalogue (role ∷ rest) agents [] = ⊥
Resolved catalogue (role ∷ rest) agents ((r, m) ∷ selected) =
    (r ≡ role)
    × IsFirst catalogue (candidates_of role agents) m
    × Resolved catalogue rest agents selected

select_agents-Resolved :
    (name : String) (catalogue rest : List String) (agents : Dict String (List String))
    (selected : Dict String String)
    → select_agents name catalogue rest agents ≡ ok selected
    → Resolved catalogue rest agents selected
unfolding select_agents
select_agents-Resolved name catalogue [] agents [] h = tt
select_agents-Resolved name catalogue [] agents (e ∷ s) h = ground arith
select_agents-Resolved name catalogue (role ∷ rest) agents [] h = ground arith
select_agents-Resolved name catalogue (role ∷ rest) agents ((r, m) ∷ s) h = ground (
  arith,
  first_available-IsFirst catalogue (candidates_of role agents) m,
  select_agents-Resolved name catalogue rest agents s,
)

-- A document's stack has one candidate for its controller.
abbrev pub one_controller : Stack → StackDefinition
one_controller stack = record { controller = stack.controller ∷ []; agents = stack.agents }

-- A normalised stack's roles are the six.
abbrev pub six_roles : StackDefinition → StackDefinition
six_roles stack = record { controller = stack.controller; agents = by_role stack.agents }

-- The stack that a request for a routing's stack, or for its default, means.
abbrev pub name_of : Routing → Option String → String
name_of (normalized default stacks) requested = stack_name requested default
name_of (document doc) requested = stack_name requested doc.default_stack

abbrev pub stack_of : Routing → String → Option StackDefinition
stack_of (normalized default stacks) name = elim (lookup name stacks) [
  | none ↦ none
  | some stack ↦ some (six_roles stack)
]
stack_of (document doc) name = elim (lookup name doc.stacks) [
  | none ↦ none
  | some stack ↦ some (one_controller stack)
]

-- What the resolved stack says of the stack that was asked for.
pub record IsEffective (catalogue : List String) (name : String) (stack : StackDefinition)
    (e : EffectiveStack) : Type 0 where
  pub stack_name : e.stack_name ≡ name
  pub controller : IsFirst catalogue stack.controller e.controller
  pub candidates : e.candidates ≡ stack.agents
  pub agents : Resolved catalogue roles stack.agents e.agents

effective-IsEffective :
    (catalogue : List String) (name : String) (stack : StackDefinition) (e : EffectiveStack)
    → effective name catalogue (first_available catalogue stack.controller) stack.agents ≡ ok e
    → IsEffective catalogue name stack e
unfolding effective
effective-IsEffective catalogue name stack e h =
    elim (Option-cases (first_available catalogue stack.controller)) [
      | inl q ↦ ground (arith, q)
      | inr (m, q) ↦ ground (
        arith,
        q,
        first_available-IsFirst catalogue stack.controller m q,
        select_agents-Resolved name catalogue roles stack.agents e.agents,
      )
    ]

one_controller-first :
    (catalogue : List String) (c : String)
    → (if contains catalogue c then some c else none) ≡ first_available catalogue (c ∷ [])
unfolding first_available
one_controller-first catalogue c = refl

-- When a stack is resolved, it is one of the routing's, the requested one or else the default; its
-- controller and the model of each role are the first of their candidates that the catalogue has.
pub resolve_effective-ok :
    (routing : Routing) (catalogue : List String) (requested : Option String) (e : EffectiveStack)
    → resolve_effective routing catalogue requested ≡ ok e
    → (stack : StackDefinition) × (stack_of routing (name_of routing requested) ≡ some stack)
      × IsEffective catalogue (name_of routing requested) stack e
unfolding resolve_effective first_available
resolve_effective-ok (normalized default stacks) catalogue requested e h =
    elim (Option-cases (lookup (stack_name requested default) stacks)) [
      | inl q ↦ ground (arith, q)
      | inr (stack, q) ↦ (
        six_roles stack,
        rw (q, stack_of) refl,
        effective-IsEffective catalogue _ (six_roles stack) e (rw (q, resolve_effective) at h),
      )
    ]
resolve_effective-ok (document doc) catalogue requested e h =
    elim (Option-cases (lookup (stack_name requested doc.default_stack) doc.stacks)) [
      | inl q ↦ ground (arith, q)
      | inr (stack, q) ↦ (
        one_controller stack,
        rw (q, stack_of) refl,
        effective-IsEffective catalogue _ (one_controller stack) e (rw (q, resolve_effective) at h),
      )
    ]

-- No candidate is in the catalogue.
abbrev pub NoneAvailable : List String → List String → Type 0
NoneAvailable catalogue candidates = (c : String) → In c candidates → contains catalogue c ≡ false

-- The role is one of `rest`, and the catalogue has none of its candidates.
abbrev pub IsStuck : List String → List String → Dict String (List String) → String → Type 0
IsStuck catalogue rest agents role =
    In role rest × NoneAvailable catalogue (candidates_of role agents)

select_agents-err :
    (name : String) (catalogue rest : List String) (agents : Dict String (List String))
    (x : RoutingError)
    → select_agents name catalogue rest agents ≡ err x
    → (role : String) × (x ≡ unavailable name role) × IsStuck catalogue rest agents role
unfolding select_agents first_available
select_agents-err name catalogue [] agents x h = ground arith
select_agents-err name catalogue (role ∷ rest) agents x h =
    elim (Option-cases (find (contains catalogue) (candidates_of role agents))) [
      | inl q ↦ (
        role,
        ground (arith, q),
        (inl refl, find-eq_none (contains catalogue) (candidates_of role agents) q),
      )
      | inr (m, q) ↦
          let (r, e, (i, n)) = select_agents-err name catalogue rest agents x (ground (arith, q)) in
          (r, e, (inr i, n))
    ]

-- Why a stack is not resolved.
abbrev pub IsUnavailable : List String → String → StackDefinition → RoutingError → Type 0
IsUnavailable catalogue name stack x =
    ((x ≡ unavailable name "controller") × NoneAvailable catalogue stack.controller)
    ⊎ ((role : String) × (x ≡ unavailable name role) × IsStuck catalogue roles stack.agents role)

effective-err :
    (catalogue : List String) (name : String) (stack : StackDefinition) (x : RoutingError)
    → effective name catalogue (first_available catalogue stack.controller) stack.agents ≡ err x
    → IsUnavailable catalogue name stack x
unfolding effective first_available
effective-err catalogue name stack x h =
    elim (Option-cases (find (contains catalogue) stack.controller)) [
      | inl q ↦ inl (ground (arith, q), find-eq_none (contains catalogue) stack.controller q)
      | inr (m, q) ↦ inr (select_agents-err name catalogue roles stack.agents x (ground (arith, q)))
    ]

-- A request fails only when the routing has no such stack, or when the catalogue has no candidate
-- of the stack's controller or of the role that the error names.
pub resolve_effective-err :
    (routing : Routing) (catalogue : List String) (requested : Option String) (x : RoutingError)
    → resolve_effective routing catalogue requested ≡ err x
    → ((stack_of routing (name_of routing requested) ≡ none)
        × (x ≡ missing_stack (name_of routing requested)))
      ⊎ ((stack : StackDefinition) × (stack_of routing (name_of routing requested) ≡ some stack)
          × IsUnavailable catalogue (name_of routing requested) stack x)
unfolding resolve_effective first_available
resolve_effective-err (normalized default stacks) catalogue requested x h =
    elim (Option-cases (lookup (stack_name requested default) stacks)) [
      | inl q ↦ inl (rw (q, stack_of) refl, ground (arith, q))
      | inr (stack, q) ↦ inr (
        six_roles stack,
        rw (q, stack_of) refl,
        effective-err catalogue _ (six_roles stack) x (rw (q, resolve_effective) at h),
      )
    ]
resolve_effective-err (document doc) catalogue requested x h =
    elim (Option-cases (lookup (stack_name requested doc.default_stack) doc.stacks)) [
      | inl q ↦ inl (rw (q, stack_of) refl, ground (arith, q))
      | inr (stack, q) ↦ inr (
        one_controller stack,
        rw (q, stack_of) refl,
        effective-err catalogue _ (one_controller stack) x (rw (q, resolve_effective) at h),
      )
    ]
