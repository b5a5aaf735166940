-- ===== src/StackCatalog/Projection.antt =====
-- What stands behind each choice of the projected catalogue.
use orichum.Base.{
  String, some, List, [], ◌∷◌, ◌≡◌, inl, inr, refl, sym, ap, ◌∙◌, subst, ◌==◌, ==_iff, string_eq,
  nat_eq, All, In, Bool-cases, Option-cases, map-In, All-In,
}
use orichum.Base.Dict.{Dict, values, lookup, insert, insert-All, lookup-All}
use orichum.Base.Result.{ok, >>=-eq-ok, ok-injective}
use orichum.Base.Sort.{sorted, sorted-In}
use orichum.Json.{Json}
use orichum.Account.{Account}
use orichum.ModelStacks.{ModelDefinition}
use orichum.StackCatalog.{
  LiveModelChoice, LiveCatalog, classify_model, catalog_ids, split_slash, active_by_prefix,
  ChoiceKey, choice_key_eq, Groups, add_to, Placed, place, place_all, account_le, in_order,
  choice_of, project_live_catalog,
}

values-All :
    (P : Account → Type 0) (d : Dict String Account)
    → All (λ e. P e.1) d
    → (a : Account) → In a (values d)
    → P a
values-All P [] h a m = absurd m
values-All P ((k, b) ∷ d) h a (inl e) = subst P (sym e) h.0
values-All P ((k, b) ∷ d) h a (inr m) = values-All P d h.1 a m

module _ (accounts : List Account) where
  -- An active account of that prefix.
  abbrev IsActive : String × Account → Type 0
  IsActive (prefix, a) = In a accounts × (a.state ≡ "active") × (a.routing_prefix ≡ prefix)

  active_by_prefix-IsActive :
      (rest : List Account) (d : Dict String Account)
      → ((a : Account) → In a rest → In a accounts)
      → All IsActive d
      → All IsActive (active_by_prefix d rest)
  unfolding active_by_prefix
  active_by_prefix-IsActive [] d sub h = h
  active_by_prefix-IsActive (a ∷ rest) d sub h =
      active_by_prefix-IsActive rest _ (λ b m. sub b (inr m))
        (elim (Bool-cases (a.state == "active")) [
          | inl t ↦ rw t (
              insert-All IsActive a.routing_prefix a d
                (sub a (inl refl), (==_iff a.state "active").0 t, refl) h)
          | inr f ↦ rw f h
        ])

  module _ (known : Dict String ModelDefinition) (document : Json) (ids : List String) where
    -- An active account that serves the model, of that family, and whose prefixed name is live.
    pub record IsBehind (provider family upstream : String) (a : Account) : Type 0 where
      pub registered : In a accounts
      pub active : a.state ≡ "active"
      pub of_provider : a.provider ≡ provider
      pub name : String
      pub live : In name ids
      pub split : split_slash name ≡ some (a.routing_prefix, upstream)
      pub classified : classify_model provider upstream known document ≡ some family

    abbrev IsGroup : ChoiceKey × Dict String Account → Type 0
    IsGroup ((p, f, u), grouped) = All (λ e. IsBehind p f u e.1) grouped

    add_to-IsGroup :
        (key : ChoiceKey) (a : Account) (d : Groups ChoiceKey)
        → IsBehind key.0 key.1 key.2 a
        → All IsGroup d
        → All IsGroup (add_to key a d)
    unfolding add_to
    add_to-IsGroup (p, f, u) a d b h = elim (Option-cases (lookup (p, f, u) d)) [
      | inl e ↦ rw e (
          insert-All IsGroup (p, f, u) (insert a.id a []) d
            (insert-All (λ (e : String × Account). IsBehind p f u e.1) a.id a [] b tt) h)
      | inr (g, e) ↦ rw e (
          insert-All IsGroup (p, f, u) (insert a.id a g) d
            (insert-All (λ (e : String × Account). IsBehind p f u e.1) a.id a g b
              (lookup-All IsGroup (p, f, u) g d h e))
            h)
    ]

    place-IsGroup :
        (active : Dict String Account) (m : String) (placed : Placed)
        → In m ids
        → All IsActive active
        → All IsGroup placed.0
        → All IsGroup (place active known document m placed).0
    unfolding place
    place-IsGroup active m (choices, plain) i a h = elim (Option-cases (split_slash m)) [
      | inl e ↦ rw (e, place) h
      | inr ((prefix, upstream), e) ↦ elim (Option-cases (lookup prefix active)) [
        | inl f ↦ rw (e, place) (rw f h)
        | inr (x, f) ↦ elim (Option-cases (classify_model x.provider upstream known document)) [
          | inl g ↦ rw (e, place) (rw f (rw g h))
          | inr (family, g) ↦
              let (r, s, q) = lookup-All IsActive prefix x active a f in
              rw (e, place)
                (rw f (
                  rw g (
                    add_to-IsGroup (x.provider, family, upstream) x choices
                      (record {
                        registered = r;
                        active = s;
                        of_provider = refl;
                        name = m;
                        live = i;
                        split = e ∙ ap (λ t. some (t, upstream)) (sym q);
                        classified = g;
                      })
                      h)))
        ]
      ]
    ]

    place_all-IsGroup :
        (active : Dict String Account) (ms : List String) (placed : Placed)
        → ((m : String) → In m ms → In m ids)
        → All IsActive active
        → All IsGroup placed.0
        → All IsGroup (place_all active known document ms placed).0
    unfolding place_all
    place_all-IsGroup active [] placed sub a h = h
    place_all-IsGroup active (m ∷ ms) placed sub a h =
        place_all-IsGroup active ms (place active known document m placed) (λ n k. sub n (inr k)) a
          (place-IsGroup active m placed (sub m (inl refl)) a h)

  -- Behind each account that a choice names there is an active account of the registry with that ID, of
  -- the choice's provider, under whose prefix the choice's model is live, and the model is of the
  -- choice's family.
  pub project_live_catalog-IsBehind :
      (raw : Json) (known : Dict String ModelDefinition) (document : Json) (catalog : LiveCatalog)
      (choice : LiveModelChoice) (id : String)
      → project_live_catalog raw accounts known document ≡ ok catalog
      → In choice catalog.choices
      → In id choice.account_ids
      → (ids : List String) × (catalog_ids raw ≡ ok ids)
        × (a : Account) × (a.id ≡ id)
        × IsBehind known document ids choice.provider choice.family choice.upstream a
  unfolding project_live_catalog choice_of in_order
  project_live_catalog-IsBehind raw known document catalog choice id h m n =
      let (ids, i_eq, h1) = >>=-eq-ok (catalog_ids raw) _ h in
      let active = active_by_prefix [] accounts in
      let placed = place_all active known document ids ([], []) in
      let groups =
        place_all-IsGroup known document ids active ids ([], []) (λ k l. l)
          (active_by_prefix-IsActive accounts [] (λ b l. l) tt) tt in
      let m1 = subst (λ (c : LiveCatalog). In choice c.choices) (sym (ok-injective h1)) m in
      let (((p, f, u), grouped), k, e) = map-In choice_of choice (sorted _ placed.0) m1 in
      let group =
        All-In (IsGroup known document ids) ((p, f, u), grouped) placed.0 groups
          (sorted-In _ ((p, f, u), grouped) placed.0 k) in
      let n1 = subst (λ (c : LiveModelChoice). In id c.account_ids) e n in
      let (a, l, q) = map-In (λ (a : Account). a.id) id (sorted account_le (values grouped)) n1 in
      let behind =
        values-All (IsBehind known document ids p f u) grouped group a
          (sorted-In account_le a (values grouped) l) in
      (
        ids,
        i_eq,
        a,
        sym q,
        subst
            (λ (c : LiveModelChoice). IsBehind known document ids c.provider c.family c.upstream a)
            (sym e) behind,
      )
