-- ===== src/StackStore/Deleted.antt =====
-- What the removal of a stack requires, and which stacks and locks stay.
use orichum.Base.{
  Bool, ℕ, String, true, false, List, [], ◌∷◌, map, ◌≡◌, ◌≢◌, ◌↔◌, inl, inr, sym, ◌∙◌, ap, subst,
  ◌==◌, ==_iff, string_eq, arith, In, any, contains, contains-In, In-contains, In-select, select-In,
  Bool-cases,
}
use orichum.Base.Dict.{Dict, has_key}
use orichum.Base.Result.{ok, Result-cases, >>=-eq-ok, ok-injective}
use orichum.Base.Sort.{sorted, sorted-In, In-sorted}
use orichum.Json.{Json, str, entries, from_entries, entries-from_entries}
use orichum.ModelStacks.{Definition, NormalizedStacks, by_key}
use orichum.ModelStacks.Normalize.{normalize_model_stacks}
use orichum.ModelStacks.Serialize.{serialize_model_stacks}
use orichum.ModelStacks.Reread.{reread}
use orichum.StackBindings.{StackBindings, check_entries, new_bindings, accounts_json}
use orichum.StackStore.{candidate_ids, is_reference, without_stack, contexts_of, kept, delete_stack}
use orichum.StackStore.Left.{default-kept, stacks_iff}

any-none :
    {A : Type 0} (p : A → Bool) (xs : List A) → any p xs ≡ false → (x : A) → In x xs → p x ≡ false
any-none p [] h x m = elim m [ ]
any-none p (y ∷ xs) h x (inl e) = ap p e ∙ ground (arith, h)
any-none p (y ∷ xs) h x (inr m) = any-none p xs (ground (arith, h)) x m

check_entries-same :
    (d e : Dict String String) → check_entries (map (λ x. (x.0, str x.1)) d) ≡ ok e → e ≡ d
unfolding check_entries
check_entries-same [] e h = ground (arith, h)
check_entries-same ((c, a) ∷ d) e h =
    elim (Result-cases (check_entries (map (λ (x : String × String). (x.0, str x.1)) d))) [
      | inl (r, q) ↦ let same = check_entries-same d r q in ground (arith, h, q, same)
      | inr (x, q) ↦ ground (arith, h, q)
    ]

new_bindings-same :
    (d : Dict String String) (b : StackBindings)
    → new_bindings (accounts_json (record { candidate_accounts = d })) ≡ ok b
    → b.candidate_accounts ≡ sorted by_key d
unfolding new_bindings accounts_json
new_bindings-same d b h =
    let json = map (λ (x : String × String). (x.0, str x.1)) d in
    let (e, q, h1) = >>=-eq-ok (check_entries (entries (from_entries json))) _ h in
    let read : check_entries json ≡ ok e = ap check_entries (sym (entries-from_entries json)) ∙ q in
    ap (λ (x : StackBindings). x.candidate_accounts) (sym (ok-injective h1))
    ∙ ap (sorted by_key) (check_entries-same d e read)

pub locks_iff :
    (v : NormalizedStacks) (bindings left : StackBindings) (lock : String × String)
    → new_bindings (accounts_json (record { candidate_accounts = kept v bindings })) ≡ ok left
    → In lock left.candidate_accounts
      ↔ (In lock bindings.candidate_accounts × In lock.0 (candidate_ids v))
unfolding kept
locks_iff v bindings left lock b =
    let stays = λ (x : String × String). contains (candidate_ids v) x.0 in
    let same = new_bindings-same (kept v bindings) left b in
    (
      λ m.
          let (i, t) =
            In-select stays lock bindings.candidate_accounts
              (sorted-In by_key lock (kept v bindings) (subst (In lock) same m)) in
          (i, contains-In (candidate_ids v) lock.0 t),
      λ (i, t). subst (In lock) (sym same) (
          In-sorted by_key lock (kept v bindings) (
            select-In stays lock bindings.candidate_accounts i
              (In-contains (candidate_ids v) lock.0 t))),
    )

module _ (digest : String → String → ℕ → String → String) where
  pub record IsDeleted (v : NormalizedStacks) (bindings : StackBindings) (name : String)
      (projects : Json) (updated : NormalizedStacks) (remaining : StackBindings) : Type 0 where
    pub not_default : name ≢ v.default_stack
    pub known : has_key name v.stacks ≡ true
    pub contexts : List Json
    pub in_projects : contexts_of projects ≡ ok contexts
    pub unreferenced : (c : Json) → In c contexts → is_reference name c ≡ false
    pub same_default : updated.default_stack ≡ v.default_stack
    pub stacks :
        (entry : String × Definition)
        → In entry updated.stacks ↔ (
            (entry.0 ≢ name)
            × (s : Definition) × In (entry.0, s) v.stacks
            × (entry.1 ≡ reread entry.0 s))
    pub locks :
        (lock : String × String)
        → In lock remaining.candidate_accounts
          ↔ (In lock bindings.candidate_accounts × In lock.0 (candidate_ids updated))

  -- A stack is deleted only where it exists, is not the default and no project refers to it. The stacks
  -- left are exactly those of other names, each with the candidates that it had for its controller and
  -- for each role, in their order; the default is the same; and the locks left are exactly those of the
  -- candidates that are still there.
  pub delete_stack-IsDeleted :
      (v : NormalizedStacks) (bindings : StackBindings) (name : String) (projects : Json)
      (updated : NormalizedStacks) (remaining : StackBindings)
      → delete_stack digest v bindings name projects ≡ ok (updated, remaining)
      → IsDeleted v bindings name projects updated remaining
  unfolding delete_stack kept
  delete_stack-IsDeleted v bindings name projects updated remaining h =
      elim (Bool-cases (name == v.default_stack)) [
        | inl d ↦ ground (arith, h, d)
        | inr d ↦ elim (Bool-cases (has_key name v.stacks)) [
          | inr k ↦ ground (arith, h, d, k)
          | inl k ↦ elim (Result-cases (contexts_of projects)) [
            | inr (x, c) ↦ ground (arith, h, d, k, c)
            | inl (contexts, c) ↦ elim (Bool-cases (any (is_reference name) contexts)) [
              | inl r ↦ ground (arith, h, d, k, c, r)
              | inr r ↦
                  elim (Result-cases (
                    normalize_model_stacks digest
                      (without_stack name (serialize_model_stacks v)))) [
                        | inr (x, n) ↦ ground (arith, h, d, k, c, r, n)
                        | inl (u, n) ↦
                            elim (Result-cases (
                              new_bindings (
                                accounts_json (record { candidate_accounts = kept u bindings })))) [
                                  | inr (x, b) ↦ ground (arith, h, d, k, c, r, n, b)
                                  | inl (left, b) ↦
                                      let e : u ≡ updated = ground (arith, h, d, k, c, r, n, b) in
                                      let pair : ◌≡◌ {A = NormalizedStacks × StackBindings}
                                          (u, left) (updated, remaining) =
                                        ground (arith, h, d, k, c, r, n, b) in
                                      let stays = locks_iff u bindings left in
                                      record {
                                        not_default = λ q.
                                            let t = (==_iff name v.default_stack).1 q in
                                            ground (arith, d, t);
                                        known = k;
                                        contexts = contexts;
                                        in_projects = c;
                                        unreferenced = any-none (is_reference name) contexts r;
                                        same_default =
                                            default-kept digest name v updated (n ∙ ap ok e);
                                        stacks = stacks_iff digest name v updated (n ∙ ap ok e);
                                        locks = λ lock.
                                            subst
                                              (λ (x : NormalizedStacks × StackBindings).
                                                In lock x.1.candidate_accounts ↔ (
                                                  In lock bindings.candidate_accounts
                                                  × In lock.0 (candidate_ids x.0)))
                                              pair (stays lock b);
                                      }
                                ]
                      ]
            ]
          ]
        ]
      ]
