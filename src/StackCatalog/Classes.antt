-- ===== src/StackCatalog/Classes.antt =====
-- Which family a live model gets.
use orichum.Base.{
  String, some, List, [], ◌∷◌, ◌≡◌, ◌↔◌, ◌⊎◌, inl, inr, refl, sym, ◌∙◌, subst, ◌==◌, ==_iff,
  string_eq, nat_eq, arith, all, In, Bool-cases, First-cases, all-In, In-all,
}
use orichum.Base.Dict.{Dict}
use orichum.Json.{Json}
use orichum.ModelStacks.{ModelDefinition}
use orichum.StackCatalog.{unique, exact_families, matching_families, member, classify_model}

-- All of the list's items are `f`, and there is one.
pub record Agree (f : String) (fs : List String) : Type 0 where
  pub stands : In f fs
  pub same : (g : String) → In g fs → g ≡ f

unique_iff : (fs : List String) (f : String) → (unique fs ≡ some f) ↔ Agree f fs
unfolding unique
unique_iff [] f = (λ h. cc, λ a. absurd a.stands)
unique_iff (g ∷ fs) f = (
  λ h. elim (Bool-cases (all (λ x. x == g) fs)) [
    | inr n ↦ ground (arith, h, n)
    | inl t ↦
        let e : f ≡ g = ground (arith, h, t) in
        record {
          stands = inl e;
          same = λ x m. elim m [
            | inl q ↦ q ∙ sym e
            | inr r ↦ (==_iff x g).0 (all-In (λ x. x == g) fs t x r) ∙ sym e
          ];
        }
  ],
  λ a.
      let e : g ≡ f = a.same g (inl refl) in
      let t = In-all (λ x. x == g) fs (λ x m. (==_iff x g).1 (a.same x (inr m) ∙ sym e)) in
      ground (arith, e, t),
)

-- A live model gets a family exactly when the known models with that very route all have it, or when
-- no known model has the route and it is the only family of which the provider's configuration names a
-- prefix that the model's name starts with.
pub classify_model_iff :
    (provider upstream : String) (known : Dict String ModelDefinition) (document : Json)
    (f : String)
    → (classify_model provider upstream known document ≡ some f) ↔ (
        Agree f (exact_families provider upstream known)
        ⊎ ((exact_families provider upstream known ≡ [])
            × Agree f (
                matching_families upstream
                  (member "familyPrefixes" (member provider (member "providers" document))))))
unfolding classify_model
classify_model_iff provider upstream known document f =
    let exact = exact_families provider upstream known in
    let prefixes =
      matching_families upstream
        (member "familyPrefixes" (member provider (member "providers" document))) in
    elim (First-cases exact) [
      | inl e ↦ (
        λ h. inr (e, (unique_iff prefixes f).0 (ground (arith, h, e))),
        λ c. elim c [
          | inl a ↦ absurd (subst (In f) e a.stands)
          | inr (_, a) ↦ let q = (unique_iff prefixes f).1 a in ground (arith, q, e)
        ],
      )
      | inr (x, r, e) ↦ (
        λ h. inl ((unique_iff exact f).0 (ground (arith, h, e))),
        λ c. elim c [
          | inl a ↦ let q = (unique_iff exact f).1 a in ground (arith, q, e)
          | inr (n, _) ↦ ground (arith, n, e)
        ],
      )
    ]
