-- ===== src/StackStore/Left.antt =====
-- The document that `delete_stack` of integrations/common/stack_store.py reads again: that of all
-- stacks but one.
use orichum.Base.{
  ℕ, String, [], ◌∷◌, map, ◌≡◌, ◌≢◌, ◌⊎◌, ◌↔◌, inl, inr, refl, sym, ◌∙◌, ap, subst, ◌==◌, ==_iff,
  string_eq, nat_eq, In, Bool-cases, map-In, In-map, pos,
}
use orichum.Base.Dict.{Dict, has_key, lookup, erase}
use orichum.Base.Result.{ok, guard, >>=-eq-ok, ok-injective}
use orichum.Base.Sort.{sorted, sorted-In, In-sorted}
use orichum.Json.{Json, int, str, item, object, has_exactly, entries-from_entries}
use orichum.ModelStacks.{
  Definition, NormalizedStacks, by_key, exact, stack_name, version_2, parse_models, missing_default,
}
use orichum.ModelStacks.Normalize.{normalize_model_stacks, schema_of, parse_stacks}
use orichum.ModelStacks.Serialize.{serialize_model_stacks, serialize_model, serialize_stack}
use orichum.ModelStacks.Reread.{reread, parse_stacks-read, stack_name-read}
use orichum.StackStore.{erase_in, without_stack}

erase-map :
    {A B : Type 0} (k : String) (f : A → B) (d : Dict String A)
    → erase k (map (λ e. (e.0, f e.1)) d) ≡ map (λ e. (e.0, f e.1)) (erase k d)
unfolding erase
erase-map k f [] = refl
erase-map k f ((j, a) ∷ d) = elim (Bool-cases (k == j)) [
  | inl t ↦ rw t (erase-map k f d)
  | inr n ↦ rw n (ap (λ l. (j, f a) ∷ l) (erase-map k f d))
]

erase-In :
    {A : Type 0} (k : String) (x : String × A) (d : Dict String A)
    → In x (erase k d)
    → In x d × (x.0 ≢ k)
unfolding erase
erase-In k x [] h = elim h [ ]
erase-In {A} k x ((j, a) ∷ d) h = elim (Bool-cases (k == j)) [
  | inl t ↦ let (m, n) = erase-In k x d (rw t at h) in (inr m, n)
  | inr f ↦ elim (let h' : (x ≡ (j, a)) ⊎ In x (erase k d) = rw f at h in h') [
    | inl e ↦
        let key : x.0 ≡ j = ap (λ (x : String × A). x.0) e in
        (inl e, λ q. let same = (==_iff k j).1 (sym q ∙ key) in cc)
    | inr r ↦ let (m, n) = erase-In k x d r in (inr m, n)
  ]
]

In-erase :
    {A : Type 0} (k : String) (x : String × A) (d : Dict String A)
    → In x d
    → x.0 ≢ k
    → In x (erase k d)
unfolding erase
In-erase k x [] h n = elim h [ ]
In-erase {A} k x ((j, a) ∷ d) h n = elim (Bool-cases (k == j)) [
  | inl t ↦ elim h [
    | inl e ↦ absurd (n (ap (λ (x : String × A). x.0) e ∙ sym ((==_iff k j).0 t)))
    | inr r ↦ rw t (In-erase k x d r n)
  ]
  | inr f ↦ elim h [ inl e ↦ rw f (inl e) | inr r ↦ rw f (inr (In-erase k x d r n)) ]
]

-- The stacks of a document but one.
abbrev others : String → NormalizedStacks → Dict String Definition
others name v = erase name (sorted by_key v.stacks)

-- The fields of a document without a stack.
abbrev left_fields : String → NormalizedStacks → Dict String Json
left_fields name v =
    ("schemaVersion", int (pos 2))
    ∷ ("defaultStack", str v.default_stack)
    ∷ ("models", object (map (λ m. (m.0, serialize_model m.1)) (sorted by_key v.models)))
    ∷ (
      "stacks",
      erase_in name (object (map (λ s. (s.0, serialize_stack s.1)) (sorted by_key v.stacks))),
    )
    ∷ []

exact-left :
    (name : String) (v : NormalizedStacks)
    → exact
        (without_stack name (serialize_model_stacks v))
        ("schemaVersion" ∷ "defaultStack" ∷ "models" ∷ "stacks" ∷ [])
      ≡ ok (left_fields name v)
unfolding exact without_stack serialize_model_stacks has_exactly string_eq
exact-left name v = refl

left-items :
    (name : String) (v : NormalizedStacks)
    → (schema_of (item "schemaVersion" (left_fields name v)) ≡ ok version_2)
      × (item "defaultStack" (left_fields name v) ≡ str v.default_stack)
      × (item "stacks" (left_fields name v)
          ≡ object (map (λ s. (s.0, serialize_stack s.1)) (others name v)))
unfolding item lookup string_eq schema_of nat_eq erase_in
left-items name v =
    let entries =
      map (λ (s : String × Definition). (s.0, serialize_stack s.1)) (sorted by_key v.stacks) in
    (
      refl,
      refl,
      ap (λ d. object (erase name d)) (entries-from_entries entries)
          ∙ ap object (erase-map name serialize_stack (sorted by_key v.stacks)),
    )

module _ (digest : String → String → ℕ → String → String) (name : String) (v u : NormalizedStacks)
    (normal : normalize_model_stacks digest (without_stack name (serialize_model_stacks v))
      ≡ ok u) where
  left-read :
      (u.default_stack ≡ v.default_stack)
      × (u.stacks ≡ map (λ s. (s.0, reread s.0 s.1)) (others name v))
  unfolding normalize_model_stacks
  left-read =
      let (sch, def, sta) = left-items name v in
      let (d, d_eq, h1) =
        >>=-eq-ok
          (exact (without_stack name (serialize_model_stacks v))
            ("schemaVersion" ∷ "defaultStack" ∷ "models" ∷ "stacks" ∷ []))
          _ normal in
      let same : d ≡ left_fields name v = ok-injective (sym d_eq ∙ exact-left name v) in
      let (s, s_eq, h2) = >>=-eq-ok (schema_of (item "schemaVersion" d)) _ h1 in
      let (default, f_eq, h3) = >>=-eq-ok (stack_name (item "defaultStack" d)) _ h2 in
      let (models, _, h4) = >>=-eq-ok (parse_models s (item "models" d)) _ h3 in
      let (stacks, t_eq, h5) = >>=-eq-ok (parse_stacks digest models s (item "stacks" d)) _ h4 in
      let (_, _, h6) = >>=-eq-ok (guard (has_key default stacks) missing_default) _ h5 in
      let schema : s ≡ version_2 =
        ok-injective (sym s_eq ∙ ap (λ d. schema_of (item "schemaVersion" d)) same ∙ sch) in
      let named =
        stack_name-read v.default_stack default
          (ap stack_name (sym (ap (item "defaultStack") same ∙ def)) ∙ f_eq) in
      let written = sym (ap (item "stacks") same ∙ sta) in
      let read =
        parse_stacks-read digest models (others name v) stacks
          ((λ i. parse_stacks digest models (sym schema i) (written i)) ∙ t_eq) in
      (
        ap (λ (u : NormalizedStacks). u.default_stack) (sym (ok-injective h6)) ∙ named,
        ap (λ (u : NormalizedStacks). u.stacks) (sym (ok-injective h6)) ∙ read,
      )

  pub default-kept : u.default_stack ≡ v.default_stack
  default-kept = left-read.0

  -- A stack of the name under which it stood, with the same candidates.
  abbrev form : String × Definition → String × Definition
  form s = (s.0, reread s.0 s.1)

  left-In :
      (entry : String × Definition)
      → In entry u.stacks
      → (entry.0 ≢ name)
        × (s : Definition) × In (entry.0, s) v.stacks
        × (entry.1 ≡ reread entry.0 s)
  left-In entry m =
      let (s, t, e) = map-In form entry (others name v) (subst (In entry) left-read.1 m) in
      let (i, n) = erase-In name s (sorted by_key v.stacks) t in
      let key : entry.0 ≡ s.0 = ap (λ (x : String × Definition). x.0) e in
      let stood = sorted-In by_key s v.stacks i in
      (
        λ q. n (sym key ∙ q),
        s.1,
        subst (λ k. In (k, s.1) v.stacks) (sym key) stood,
        ap (λ (x : String × Definition). x.1) e ∙ ap (λ k. reread k s.1) (sym key),
      )

  In-left :
      (entry : String × Definition) (s : Definition)
      → entry.0 ≢ name
      → In (entry.0, s) v.stacks
      → entry.1 ≡ reread entry.0 s
      → In entry u.stacks
  In-left entry s n m e =
      let stays =
        In-erase name (entry.0, s) (sorted by_key v.stacks)
          (In-sorted by_key (entry.0, s) v.stacks m) n in
      let whole : form (entry.0, s) ≡ entry = λ i. (entry.0, sym e i) in
      subst (In entry) (sym left-read.1) (
        subst (λ x. In x (map form (others name v))) whole
          (In-map form (entry.0, s) (others name v) stays))

  pub stacks_iff :
      (entry : String × Definition)
      → In entry u.stacks ↔ (
          (entry.0 ≢ name)
          × (s : Definition) × In (entry.0, s) v.stacks
          × (entry.1 ≡ reread entry.0 s))
  stacks_iff entry = (left-In entry, λ (n, s, m, e). In-left entry s n m e)
