-- ===== src/ModelStacks/Reread.antt =====
-- stack_definition.py: what is read of stacks that `serialize_model_stacks` wrote, where the reading
-- succeeds. Nothing is asked of the stacks written.
use orichum.Base.{
  ℕ, String, not, ◌≡◌, List, [], ◌∷◌, All, map, all, arith, string_eq, nat_eq, sym, ap, ◌∙◌,
  contains,
}
use orichum.Base.Dict.{Dict, has_key}
use orichum.Base.Result.{ok, guard, >>=-eq-ok, ok-injective}
use orichum.Json.{Json, str, item, array, object, items-from_items, entries-from_entries}
use orichum.Account.Registry.{distinct}
use orichum.ModelRouting.{roles, validate_model_id, validate_stack_name}
use orichum.ModelStacks.{
  StackError, ModelDefinition, StackCandidate, Definition, version_2, exact, identifier, reraised,
  model_id, stack_name, fields_of, items_of, identifiers, repeated_id, unknown_model, no_providers,
  repeated_provider, unrouted, no_candidates, wrong_agents, no_stacks,
}
use orichum.ModelStacks.Normalize.{
  routes_of, candidate_text, candidate, candidates_from, candidate_list, agent_candidates,
  scope_candidates, agents_from, stack_agents, are_agents, parse_stack, stacks_from, parse_stacks,
}
use orichum.ModelStacks.Serialize.{serialize_candidate, serialize_candidates, serialize_stack}
use orichum.ModelStacks.Written.{candidate_fields, exact-candidate, candidate-items}
use orichum.ModelStacks.WrittenStacks.{
  Agents, tabulate, agents_entries, not_legacy, agents-items, stack_fields, exact-stack,
  stack-items,
}

candidate_text-read : (s r : String) → candidate_text (str s) ≡ ok r → r ≡ s
unfolding candidate_text
candidate_text-read s r h = ground arith

model_id-read : (s r : String) → model_id (str s) ≡ ok r → r ≡ s
unfolding model_id reraised validate_model_id
model_id-read s r h = ground arith

pub stack_name-read : (s r : String) → stack_name (str s) ≡ ok r → r ≡ s
unfolding stack_name reraised validate_stack_name
stack_name-read s r h = ground arith

identifiers-read : (ps r : List String) → identifiers (map str ps) ≡ ok r → r ≡ ps
unfolding identifiers identifier
identifiers-read [] r h = ground arith
identifiers-read (p ∷ ps) r h =
    let (q, q_eq, h1) = >>=-eq-ok (identifier (str p)) _ h in
    let (rest, r_eq, h2) = >>=-eq-ok (identifiers (map str ps)) _ h1 in
    ground (arith, q_eq, h2, identifiers-read ps rest r_eq)

items_of-read : (e : StackError) (vs r : List Json) → items_of e (array vs) ≡ ok r → r ≡ vs
unfolding items_of
items_of-read e [] r h = ground arith
items_of-read e (v ∷ vs) r h = sym (ok-injective h) ∙ ap (λ l. v ∷ l) (items-from_items vs)

fields_of-read : (e : StackError) (d r : Dict String Json) → fields_of e (object d) ≡ ok r → r ≡ d
unfolding fields_of
fields_of-read e [] r h = ground arith
fields_of-read e ((k, v) ∷ d) r h =
    sym (ok-injective h) ∙ ap (λ l. (k, v) ∷ l) (entries-from_entries d)

-- A stack as it is read: its name, and the same candidates for the controller and for each role.
abbrev pub reread : String → Definition → Definition
reread name s = record { name = name; controller = s.controller; agents = tabulate s.agents roles }

module _ (models : Dict String ModelDefinition) where
  candidate-read :
      (seen : List String) (c : StackCandidate) (r : StackCandidate × List String)
      → candidate models seen (serialize_candidate c) ≡ ok r
      → r.0 ≡ c
  unfolding candidate
  candidate-read seen c r h =
      let (i, m, p) = candidate-items c in
      let (d, d_eq, h1) =
        >>=-eq-ok (exact (serialize_candidate c) ("id" ∷ "model" ∷ "providers" ∷ [])) _ h in
      let same : d ≡ candidate_fields c = ok-injective (sym d_eq ∙ exact-candidate c) in
      let (id, id_eq, h2) = >>=-eq-ok (candidate_text (item "id" d)) _ h1 in
      let (_, _, h3) = >>=-eq-ok (guard (not (contains seen id)) repeated_id) _ h2 in
      let (model, m_eq, h4) = >>=-eq-ok (model_id (item "model" d)) _ h3 in
      let (_, _, h5) = >>=-eq-ok (guard (has_key model models) unknown_model) _ h4 in
      let (raw, raw_eq, h6) = >>=-eq-ok (items_of no_providers (item "providers" d)) _ h5 in
      let (ps, ps_eq, h7) = >>=-eq-ok (identifiers raw) _ h6 in
      let (_, _, h8) = >>=-eq-ok (guard (distinct ps) repeated_provider) _ h7 in
      let (_, _, h9) =
        >>=-eq-ok (guard (all (λ p. has_key p (routes_of models model)) ps) unrouted) _ h8 in
      let id_same =
        candidate_text-read c.id id (ap candidate_text (sym (ap (item "id") same ∙ i)) ∙ id_eq) in
      let m_same =
        model_id-read c.model model (ap model_id (sym (ap (item "model") same ∙ m)) ∙ m_eq) in
      let raw_same =
        items_of-read no_providers (map str c.providers) raw
          (ap (items_of no_providers) (sym (ap (item "providers") same ∙ p)) ∙ raw_eq) in
      let ps_same = identifiers-read c.providers ps (ap identifiers (sym raw_same) ∙ ps_eq) in
      ground (arith, h9, id_same, m_same, ps_same)

  candidates_from-read :
      (seen : List String) (cs : List StackCandidate) (r : List StackCandidate × List String)
      → candidates_from models seen (map serialize_candidate cs) ≡ ok r
      → r.0 ≡ cs
  unfolding candidates_from
  candidates_from-read seen [] r h = ground arith
  candidates_from-read seen (c ∷ cs) r h =
      let (first, f_eq, h1) = >>=-eq-ok (candidate models seen (serialize_candidate c)) _ h in
      let (rest, r_eq, h2) =
        >>=-eq-ok (candidates_from models first.1 (map serialize_candidate cs)) _ h1 in
      let one = candidate-read seen c first f_eq in
      let more = candidates_from-read first.1 cs rest r_eq in ground (arith, h2, one, more)

  candidate_list-read :
      (seen : List String) (cs : List StackCandidate) (r : List StackCandidate × List String)
      → candidate_list models seen (serialize_candidates cs) ≡ ok r
      → r.0 ≡ cs
  unfolding candidate_list serialize_candidates
  candidate_list-read seen cs r h =
      let (vs, v_eq, h1) =
        >>=-eq-ok (items_of no_candidates (array (map serialize_candidate cs))) _ h in
      let same = items_of-read no_candidates (map serialize_candidate cs) vs v_eq in
      let (found, f_eq, h2) = >>=-eq-ok (candidates_from models seen vs) _ h1 in
      let one =
        candidates_from-read seen cs found (ap (candidates_from models seen) (sym same) ∙ f_eq) in
      ground (arith, h2, one)

module _ (digest : String → String → ℕ → String → String)
    (models : Dict String ModelDefinition) where
  agents_from-read :
      (stack : String) (rs : List String) (d : Dict String Json) (agents : Agents)
      (seen : List String) (r : Agents × List String)
      → All (λ r. item r d ≡ serialize_candidates (agent_candidates agents r)) rs
      → agents_from digest models version_2 stack rs d seen ≡ ok r
      → r.0 ≡ tabulate agents rs
  unfolding agents_from scope_candidates
  agents_from-read stack [] d agents seen r i h = ground arith
  agents_from-read stack (role ∷ rs) d agents seen r i h =
      let cs = agent_candidates agents role in
      let (first, f_eq, h1) = >>=-eq-ok (candidate_list models seen (item role d)) _ h in
      let (more, m_eq, h2) =
        >>=-eq-ok (agents_from digest models version_2 stack rs d first.1) _ h1 in
      let one =
        candidate_list-read models seen cs first
          (ap (candidate_list models seen) (sym i.0) ∙ f_eq) in
      let rest = agents_from-read stack rs d agents first.1 more i.1 m_eq in
      ap (λ (r : Agents × List String). r.0) (sym (ok-injective h2))
      ∙ ap (λ c. (role, c) ∷ more.0) one
      ∙ ap (λ l. (role, cs) ∷ l) rest

  stack_agents-read :
      (stack : String) (agents : Agents) (seen : List String) (r : Agents × List String)
      → stack_agents digest models version_2 stack
          (object (agents_entries digest models agents))
          seen
        ≡ ok r
      → r.0 ≡ tabulate agents roles
  unfolding stack_agents
  stack_agents-read stack agents seen r h =
      agents_from-read stack roles (agents_entries digest models agents) agents seen r
        (agents-items digest models agents) (rw (not_legacy digest models agents) at h)

  parse_stack-read :
      (seen : List String) (n : String) (s : Definition) (r : (String × Definition) × List String)
      → parse_stack digest models version_2 seen n (serialize_stack s) ≡ ok r
      → r.0 ≡ (n, reread n s)
  unfolding parse_stack scope_candidates
  parse_stack-read seen n s r h =
      let (c, a) = stack-items digest models s in
      let (name, n_eq, h1) = >>=-eq-ok (stack_name (str n)) _ h in
      let (d, d_eq, h2) =
        >>=-eq-ok (exact (serialize_stack s) ("controller" ∷ "agents" ∷ [])) _ h1 in
      let same : d ≡ stack_fields digest models s =
        ok-injective (sym d_eq ∙ exact-stack digest models s) in
      let (_, _, h3) = >>=-eq-ok (guard (are_agents (item "agents" d)) wrong_agents) _ h2 in
      let (first, f_eq, h4) = >>=-eq-ok (candidate_list models seen (item "controller" d)) _ h3 in
      let (more, m_eq, h5) =
        >>=-eq-ok (stack_agents digest models version_2 name (item "agents" d) first.1) _ h4 in
      let controller =
        candidate_list-read models seen s.controller first
          (ap (candidate_list models seen) (sym (ap (item "controller") same ∙ c)) ∙ f_eq) in
      let agents = stack_agents-read name s.agents first.1 more (
        ap (λ v. stack_agents digest models version_2 name v first.1)
          (sym (ap (item "agents") same ∙ a))
        ∙ m_eq) in
      let named = stack_name-read n name n_eq in
      ap (λ (r : (String × Definition) × List String). r.0) (sym (ok-injective h5))
      ∙ (λ i. (named i, record { name = named i; controller = controller i; agents = agents i }))

  stacks_from-read :
      (seen : List String) (l : Dict String Definition) (r : Dict String Definition × List String)
      → stacks_from digest models version_2 seen (map (λ s. (s.0, serialize_stack s.1)) l) ≡ ok r
      → r.0 ≡ map (λ s. (s.0, reread s.0 s.1)) l
  unfolding stacks_from
  stacks_from-read seen [] r h = ground arith
  stacks_from-read seen ((n, s) ∷ l) r h =
      let (first, f_eq, h1) =
        >>=-eq-ok (parse_stack digest models version_2 seen n (serialize_stack s)) _ h in
      let (rest, r_eq, h2) =
        >>=-eq-ok
          (stacks_from digest models version_2 first.1 (map (λ s. (s.0, serialize_stack s.1)) l)) _
          h1 in
      ap (λ (r : Dict String Definition × List String). r.0) (sym (ok-injective h2))
      ∙ ap (λ e. e ∷ rest.0) (parse_stack-read seen n s first f_eq)
      ∙ ap (λ l. (n, reread n s) ∷ l) (stacks_from-read first.1 l rest r_eq)

  -- Stacks that were written and are accepted are read in their order, with every candidate.
  pub parse_stacks-read :
      (l r : Dict String Definition)
      → parse_stacks digest models version_2 (object (map (λ s. (s.0, serialize_stack s.1)) l))
        ≡ ok r
      → r ≡ map (λ s. (s.0, reread s.0 s.1)) l
  unfolding parse_stacks
  parse_stacks-read l r h =
      let entries = map (λ (s : String × Definition). (s.0, serialize_stack s.1)) l in
      let (d, d_eq, h1) = >>=-eq-ok (fields_of no_stacks (object entries)) _ h in
      let (found, f_eq, h2) = >>=-eq-ok (stacks_from digest models version_2 [] d) _ h1 in
      let same = fields_of-read no_stacks entries d d_eq in
      sym (ok-injective h2)
      ∙ stacks_from-read [] l found (ap (stacks_from digest models version_2 []) (sym same) ∙ f_eq)
