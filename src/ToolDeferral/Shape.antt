-- ===== src/ToolDeferral/Shape.antt =====
-- What a transformed request keeps of the request: everything but the marks on the tools.
use orichum.Base.{
  String, Bool, true, false, not, ◌&&◌, Option, none, some, List, [], ◌∷◌, ◌++◌, map, ◌≡◌, ◌≢◌,
  refl, ◌∙◌, sym, subst, ◌⊎◌, inl, inr, ◌==◌, string_eq, select, if◌then◌else◌, Bool-cases,
  Option-cases, List-cases, arith,
}
use orichum.Base.Dict.{Dict, lookup, insert, erase, lookup-insert, lookup-erase}
use orichum.Json.{
  Json, null, bool, arr, obj, Items, Fields, entries, items, array, object, entries-from_entries,
}
use orichum.ToolDeferral.{
  get, set_key, pop_key, defer, is_source, is_resident, named_in, eligible_client_tool, find_last,
  change_last, move_breakpoint, preserve_cache_breakpoint, accepts, transform_tools,
  transform_document, search_tool, is_dict,
}

get-set_key :
    (j k : String) (v : Json) (t : Json)
    → get j (set_key k v t) ≡ (if is_dict t && j == k then some v else get j t)
unfolding get set_key is_dict
get-set_key j k v (obj fs) =
    rw (entries-from_entries (insert k v (entries fs))) (lookup-insert j k v (entries fs))
get-set_key j k v null = refl
get-set_key j k v _ = refl

get-pop_key : (j k : String) (t : Json) → get j (pop_key k t) ≡ (if j == k then none else get j t)
unfolding get pop_key
get-pop_key j k (obj fs) =
    rw (entries-from_entries (erase k (entries fs))) (lookup-erase j k (entries fs))
get-pop_key j k null = ground arith
get-pop_key j k _ = ground arith

-- Two lists of one length, related item by item.
abbrev pub Pointwise : (Json → Json → Type 0) → List Json → List Json → Type 0
Pointwise R [] [] = Unit
Pointwise R [] (y ∷ ys) = ⊥
Pointwise R (x ∷ xs) [] = ⊥
Pointwise R (x ∷ xs) (y ∷ ys) = R x y × Pointwise R xs ys

-- A tool is kept but for its cache mark, and it is deferred if it may be and is not resident.
pub record Kept (resident : List String) (t u : Json) : Type 0 where
  pub others : (k : String) → k ≢ "defer_loading" → k ≢ "cache_control" → get k u ≡ get k t
  pub mark : get "defer_loading" u ≡ (
      if eligible_client_tool t && not (named_in resident t)
      then some (bool true)
      else get "defer_loading" t)

module _ (R : Json → Json → Type 0) where
  Pointwise-map :
      (f : Json → Json) (xs : List Json) → ((x : Json) → R x (f x)) → Pointwise R xs (map f xs)
  Pointwise-map f [] h = tt
  Pointwise-map f (x ∷ xs) h = (h x, Pointwise-map f xs h)

  Pointwise-map_after :
      (f : Json → Json) (xs ys : List Json)
      → ((x y : Json) → R x y → R x (f y))
      → Pointwise R xs ys
      → Pointwise R xs (map f ys)
  Pointwise-map_after f [] [] h r = tt
  Pointwise-map_after f [] (y ∷ ys) h r = absurd r
  Pointwise-map_after f (x ∷ xs) [] h r = absurd r
  Pointwise-map_after f (x ∷ xs) (y ∷ ys) h r = (h x y r.0, Pointwise-map_after f xs ys h r.1)

  change_last-some :
      (p : Json → Bool) (f : Json → Json) (y z : Json) (ys : List Json)
      → find_last p ys ≡ some z
      → change_last p f (y ∷ ys) ≡ y ∷ change_last p f ys
  unfolding change_last
  change_last-some p f y z ys e = ground (arith, e)

  change_last-none :
      (p : Json → Bool) (f : Json → Json) (y : Json) (ys : List Json)
      → find_last p ys ≡ none
      → change_last p f (y ∷ ys) ≡ (if p y then f y ∷ ys else y ∷ ys)
  unfolding change_last
  change_last-none p f y ys e = ground (arith, e)

  Pointwise-change_last :
      (p : Json → Bool) (f : Json → Json) (xs ys : List Json)
      → ((x y : Json) → R x y → R x (f y))
      → Pointwise R xs ys
      → Pointwise R xs (change_last p f ys)
  unfolding change_last
  Pointwise-change_last p f [] [] h r = tt
  Pointwise-change_last p f [] (y ∷ ys) h r = absurd r
  Pointwise-change_last p f (x ∷ xs) [] h r = absurd r
  Pointwise-change_last p f (x ∷ xs) (y ∷ ys) h r =
      let deeper = Pointwise-change_last p f xs ys h r.1 in
      elim (Option-cases (find_last p ys)) [
        | inr (z, e) ↦
            subst (Pointwise R (x ∷ xs)) (sym (change_last-some p f y z ys e)) (r.0, deeper)
        | inl e ↦
            subst (Pointwise R (x ∷ xs)) (sym (change_last-none p f y ys e))
              (elim (Bool-cases (p y)) [ inl t ↦ rw t (h x y r.0, r.1) | inr n ↦ rw n r ])
      ]

defer-Kept : (resident : List String) (t : Json) → Kept resident t (defer resident t)
unfolding defer
defer-Kept resident t = record {
  others = λ k n m. ground (arith, get-set_key k "defer_loading" (bool true) t, dict_of t);
  mark = ground (arith, get-set_key "defer_loading" "defer_loading" (bool true) t, dict_of t);
}
  where
    dict_of : (u : Json) → eligible_client_tool u ≡ true → is_dict u ≡ true
    dict_of u h = unfold eligible_client_tool in ground arith

differ : ◌==◌ {A = String} "defer_loading" "cache_control" ≡ false
unfolding string_eq
differ = refl

and_false : (b : Bool) → (b && false) ≡ false
and_false true = refl
and_false false = refl

-- Where the cache mark can be kept, the tools stay, or the mark moves.
preserved :
    (resident : List String) (ys zs : List Json)
    → preserve_cache_breakpoint resident ys ≡ some zs
    → (zs ≡ ys) ⊎ ((value : Json) × (zs ≡ move_breakpoint resident value ys))
unfolding preserve_cache_breakpoint
preserved resident ys zs h = elim (List-cases (select is_source ys)) [
  | inl e ↦ inl (ground (arith, e))
  | inr (inr (a, b, l, e)) ↦ ground (arith, e)
  | inr (inl (a, e)) ↦ elim (Option-cases (get "cache_control" a)) [
    | inl n ↦ ground (arith, e, n)
    | inr (value, v) ↦ inr (value, ground (arith, e, v))
  ]
]

set-Kept :
    (resident : List String) (v : Json) (t u : Json)
    → Kept resident t u
    → Kept resident t (set_key "cache_control" v u)
set-Kept resident v t u k = record {
  others = λ j n m. ground (arith, get-set_key j "cache_control" v u, k.others j n m);
  mark =
      get-set_key "defer_loading" "cache_control" v u ∙ rw (differ, and_false (is_dict u)) k.mark;
}

pop-Kept :
    (resident : List String) (t u : Json)
    → Kept resident t u
    → Kept resident t (if is_source u then pop_key "cache_control" u else u)
pop-Kept resident t u k = elim (Bool-cases (is_source u)) [
  | inr n ↦ rw n k
  | inl s ↦ rw s (record {
    others = λ j n m. ground (arith, get-pop_key j "cache_control" u, k.others j n m);
    mark = get-pop_key "defer_loading" "cache_control" u ∙ rw differ k.mark;
  })
]

move_breakpoint-Kept :
    (resident : List String) (value : Json) (xs ys : List Json)
    → Pointwise (Kept resident) xs ys
    → Pointwise (Kept resident) xs (move_breakpoint resident value ys)
unfolding move_breakpoint
move_breakpoint-Kept resident value xs ys r =
    Pointwise-change_last (Kept resident) (is_resident resident) (set_key "cache_control" value) xs
      (map (λ t. if is_source t then pop_key "cache_control" t else t) ys) (set-Kept resident value)
      (Pointwise-map_after (Kept resident)
        (λ t. if is_source t then pop_key "cache_control" t else t) xs ys (pop-Kept resident) r)

preserve-Kept :
    (resident : List String) (xs ys zs : List Json)
    → Pointwise (Kept resident) xs ys
    → preserve_cache_breakpoint resident ys ≡ some zs
    → Pointwise (Kept resident) xs zs
preserve-Kept resident xs ys zs r h = elim (preserved resident ys zs h) [
  | inl same ↦ rw same r
  | inr (value, moved) ↦ rw moved (move_breakpoint-Kept resident value xs ys r)
]

pub transform_tools-Kept :
    (resident : List String) (xs zs : List Json)
    → transform_tools resident xs ≡ some zs
    → (ys : List Json) × (zs ≡ ys ++ search_tool ∷ []) × Pointwise (Kept resident) xs ys
unfolding transform_tools
transform_tools-Kept resident xs zs h =
    elim (Option-cases (preserve_cache_breakpoint resident (map (defer resident) xs))) [
      | inl e ↦ ground (arith, e)
      | inr (ys, e) ↦ (
        ys,
        ground (arith, e),
        preserve-Kept resident xs (map (defer resident) xs) ys
            (Pointwise-map (Kept resident) (defer resident) xs (defer-Kept resident)) e,
      )
    ]

-- The steps of a transformation.
pub record Made (resident : List String) (fs : Fields) (new : Json) : Type 0 where
  pub xs : Items
  pub tools : List Json
  pub given : lookup "tools" (entries fs) ≡ some (arr xs)
  pub accepted : accepts (entries fs) (items xs) ≡ true
  pub steps : transform_tools resident (items xs) ≡ some tools
  pub result : new ≡ object (insert "tools" (array tools) (entries fs))

pub transform_document-Made :
    (resident : List String) (fs : Fields) (new : Json)
    → transform_document resident (obj fs) ≡ some new
    → Made resident fs new
unfolding transform_document
transform_document-Made resident fs new h = go (lookup "tools" (entries fs)) refl
  where
    go : (o : Option Json) → lookup "tools" (entries fs) ≡ o → Made resident fs new
    go none e = ground (arith, e)
    go (some (arr xs)) e = elim (Option-cases (transform_tools resident (items xs))) [
      | inl f ↦ ground (arith, e, f)
      | inr (tools, f) ↦ record {
        xs = xs;
        tools = tools;
        given = e;
        accepted = ground (arith, e, f);
        steps = f;
        result = ground (arith, e, f);
      }
    ]
    go (some v) e = ground (arith, e)

pub get-object : (k : String) (d : Dict String Json) → get k (object d) ≡ lookup k d
unfolding get
get-object k d = rw entries-from_entries

-- A transformed request differs from the request in its tools alone. They are the request's, in
-- order, each kept but for its cache mark and deferred exactly if it may be and is not resident,
-- and then the search tool.
pub transform_document-Kept :
    (resident : List String) (fs : Fields) (new : Json)
    → transform_document resident (obj fs) ≡ some new
    → (xs : Items) × (ys : List Json) × (lookup "tools" (entries fs) ≡ some (arr xs))
      × (get "tools" new ≡ some (array (ys ++ search_tool ∷ [])))
      × ((k : String) → k ≢ "tools" → get k new ≡ lookup k (entries fs))
      × Pointwise (Kept resident) (items xs) ys
transform_document-Kept resident fs new h =
    let made = transform_document-Made resident fs new h in
    let (ys, shape, kept) = transform_tools-Kept resident (items made.xs) made.tools made.steps in
    (
      made.xs,
      ys,
      made.given,
      rw (made.result, shape)
          (get-object "tools" _ ∙ lookup-insert "tools" "tools" _ (entries fs) ∙ ground arith),
      λ k other.
          rw made.result (get-object k _ ∙ lookup-insert k "tools" _ (entries fs) ∙ ground arith),
      kept,
    )
