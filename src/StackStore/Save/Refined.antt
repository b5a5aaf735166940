-- ===== src/StackStore/Save/Refined.antt =====
-- A save as a step of the pair of the two texts: it happens or it does not.
use orichum.Base.{
  ℕ, String, Bool, true, false, Option, none, some, List, [], ◌∷◌, ◌≡◌, ◌⊎◌, inl, inr, refl, sym,
  ◌∙◌, ap, subst, leb, arith, option_eq, string_eq,
}
use orichum.Base.Result.{Result, ok}
use orichum.Account.{Account, AccountError}
use orichum.ModelStacks.{NormalizedStacks}
use orichum.StackBindings.{StackBindings, Library, stack_binding_digest}
use orichum.StackStore.Disk.{Files, World, Exit, returned, raised, stopped, Outcome}
use orichum.StackStore.Disk.Rules.{Runs, Left}
use orichum.StackStore.Recovery.{recover_transaction, max_config, max_binding}
use orichum.StackStore.Recovery.Atomic.{MarkerLaws, Short}
use orichum.StackStore.Recovery.Finished.{
  Runs-any, recover_transaction-IsAtomic, recover_transaction-returns,
}
use orichum.StackStore.Save.{
  StackSnapshot, binding_payload, planned_stack_digests, serialize_stacks, save_stack_at,
}
use orichum.StackStore.Save.Published.{Both, OneOf}
use orichum.StackStore.Save.Saved.{
  IsStore, IsBetween, IsPlanned, IsSaved, IsCut, save_stack_at-Leaves,
}

-- Recoveries one after another, each with the outcomes of its calls.
unfoldable pub recoveries : Library → List (List Outcome) → Files → Files
recoveries lib [] x = x
recoveries lib (os ∷ oss) x =
    recoveries lib oss (recover_transaction lib (record { files = x; outcomes = os })).1.files

payload-digest :
    (lib : Library) (b : Option String) (v : StackBindings)
    → binding_payload lib (stack_binding_digest lib b) v ≡ binding_payload lib b v
unfolding binding_payload stack_binding_digest option_eq
payload-digest lib none v = refl
payload-digest lib (some t) v = refl

planned_digests :
    (lib : Library) (digest : String → String → ℕ → String → String) (snapshot : StackSnapshot)
    (updated : NormalizedStacks) (v : StackBindings) (m : String) (b : Option String)
    → serialize_stacks lib digest updated ≡ ok m
    → binding_payload lib snapshot.binding_digest v ≡ ok b
    → planned_stack_digests lib digest snapshot updated v
      ≡ ok (lib.hash m, stack_binding_digest lib b)
unfolding planned_stack_digests
planned_digests lib digest snapshot updated v m b h k = ground (arith, h, k)

module _ (lib : Library) (laws : MarkerLaws lib) (digest : String → String → ℕ → String → String)
    (registry : Result AccountError (List Account)) (snapshot : StackSnapshot)
    (updated : NormalizedStacks) (updated_bindings : StackBindings) (m0 : String)
    (b0 : Option String) (small_model : leb (lib.length_of m0) max_config ≡ true)
    (small_binding : Short lib max_binding b0) where
  abbrev Saved : Files → Type 0
  Saved = IsSaved lib digest registry snapshot updated updated_bindings m0 b0

  abbrev Cut : Files → Type 0
  Cut = IsCut lib digest registry snapshot updated updated_bindings m0 b0

  returned_of :
      (E S : Files → Type 0) (x : Exit (Unit {0}) × World) (w : World)
      → Left true true (λ u. Saved) E S x
      → x ≡ (returned tt, w)
      → Saved w.files
  returned_of E S (returned u, v) w h e =
      let q : v ≡ w = cc in subst (λ (y : World). Saved y.files) q h.1
  returned_of E S (raised y, v) w h e = cc
  returned_of E S (stopped, v) w h e = cc

  -- However the calls come out, a save that returns has found the files as the snapshot has them, has
  -- accepted the locks, and leaves the two planned texts and no open transaction.
  pub save_stack_at-IsSaved :
      (w w' : World)
      → IsStore lib m0 b0 w.files
      → save_stack_at lib digest registry snapshot updated updated_bindings w ≡ (returned tt, w')
      → Saved w'.files
  save_stack_at-IsSaved w w' h e =
      returned_of _ _ (save_stack_at lib digest registry snapshot updated updated_bindings w) w'
        ((save_stack_at-Leaves lib laws digest registry snapshot updated updated_bindings m0 b0
            small_model small_binding true true).run
          w (Runs-any w.outcomes) h)
        e

  abbrev IsAllOrNothing : Files → Type 0
  IsAllOrNothing x = IsStore lib m0 b0 x ⊎ Cut x

  Saved-Cut : (x : Files) → Saved x → Cut x
  Saved-Cut x h = record {
    m1 = h.m1;
    b1 = h.b1;
    planned = h.planned;
    between = inl (record {
      marked = h.settled.marked;
      good = inr h.settled.good;
      short_model = h.settled.short_model;
      short_binding = h.settled.short_binding;
    });
  }

  left_of :
      (x : Exit (Unit {0}) × World)
      → Left false true
          (λ u. Saved)
          (λ y. ◌≡◌ {A = Bool} false false → IsStore lib m0 b0 y)
          (λ y. ◌≡◌ {A = Bool} false false → IsStore lib m0 b0 y ⊎ Cut y)
          x
      → IsAllOrNothing x.1.files
  left_of (returned u, w) h = inr (Saved-Cut w.files h.1)
  left_of (raised e, w) h = inl (h refl)
  left_of (stopped, w) h = h refl

  abbrev OldOrNew : Files → Type 0
  OldOrNew x =
      Both m0 b0 x.model x.bindings
      ⊎ ((m1 : String) × (b1 : Option String) × IsPlanned lib digest updated updated_bindings b0 m1
            b1
          × Both m1 b1 x.model x.bindings)

  recovered :
      (m1 : String) (b1 : Option String) (oss : List (List Outcome)) (x : Files)
      → IsBetween lib m0 b0 m1 b1 x
      → (w : World) × (recover_transaction lib
            (record { files = recoveries lib oss x; outcomes = [] })
          ≡ (returned tt, w))
        × OneOf m0 b0 m1 b1 w.files.model w.files.bindings
  unfolding recoveries
  recovered m1 b1 [] x h =
      let (w, e, y) =
        recover_transaction-returns lib laws (OneOf m0 b0 m1 b1) m0 b0 (inl (refl, refl))
          small_model small_binding x h in
      (w, e, y.good)
  recovered m1 b1 (os ∷ oss) x h =
      recovered m1 b1 oss (recover_transaction lib (record { files = x; outcomes = os })).1.files (
        recover_transaction-IsAtomic lib laws (OneOf m0 b0 m1 b1) m0 b0 (inl (refl, refl))
          small_model small_binding (record { files = x; outcomes = os }) h)

  IsStore-IsBetween : (x : Files) → IsStore lib m0 b0 x → IsBetween lib m0 b0 m0 b0 x
  IsStore-IsBetween x (inl h) = inl (record {
    marked = h.marked;
    good = inl h.good;
    short_model = h.short_model;
    short_binding = h.short_binding;
  })
  IsStore-IsBetween x (inr h) = inr h

  -- Where no call of a save fails, but the process may be stopped at any call, and however the calls of
  -- the recoveries that follow come out: a recovery whose calls are done returns, and the two files are
  -- then both the old ones or both the planned ones.
  pub save_stack_at-OldOrNew :
      (w : World) (oss : List (List Outcome))
      → Runs false true w.outcomes
      → IsStore lib m0 b0 w.files
      → let left =
          (save_stack_at lib digest registry snapshot updated updated_bindings w).1.files in
        (w' : World) × (recover_transaction lib
            (record { files = recoveries lib oss left; outcomes = [] })
          ≡ (returned tt, w'))
        × OldOrNew w'.files
  save_stack_at-OldOrNew w oss r h =
      let left = (save_stack_at lib digest registry snapshot updated updated_bindings w).1.files in
      elim (left_of (save_stack_at lib digest registry snapshot updated updated_bindings w) (
        (save_stack_at-Leaves lib laws digest registry snapshot updated updated_bindings m0 b0
            small_model small_binding false true).run
          w r h)) [
            | inl same ↦
                let (w', e, y) = recovered m0 b0 oss left (IsStore-IsBetween left same) in
                (w', e, elim y [ inl a ↦ inl a | inr a ↦ inl a ])
            | inr cut ↦
                let (w', e, y) = recovered cut.m1 cut.b1 oss left cut.between in
                (w', e, elim y [ inl a ↦ inl a | inr a ↦ inr (cut.m1, cut.b1, cut.planned, a) ])
          ]

  -- The digests of what a save that returns has published are those that `planned_stack_digests` gives.
  pub save_stack_at-planned :
      (w w' : World)
      → IsStore lib m0 b0 w.files
      → save_stack_at lib digest registry snapshot updated updated_bindings w ≡ (returned tt, w')
      → (m : String) × (w'.files.model ≡ some m)
        × (planned_stack_digests lib digest snapshot updated updated_bindings
            ≡ ok (lib.hash m, stack_binding_digest lib w'.files.bindings))
  save_stack_at-planned w w' h e =
      let saved = save_stack_at-IsSaved w w' h e in
      let payload : binding_payload lib snapshot.binding_digest updated_bindings ≡ ok saved.b1 =
        ap (λ d. binding_payload lib d updated_bindings) (sym saved.unchanged.1)
        ∙ payload-digest lib b0 updated_bindings
        ∙ saved.planned.binding in
      (
        saved.m1,
        saved.settled.good.0,
        planned_digests lib digest snapshot updated updated_bindings saved.m1 saved.b1
              saved.planned.model payload
            ∙ ap (λ b. ok (lib.hash saved.m1, stack_binding_digest lib b))
                (sym saved.settled.good.1),
      )
