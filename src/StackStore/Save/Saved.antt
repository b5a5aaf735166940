-- ===== src/StackStore/Save/Saved.antt =====
-- A save as a whole: what it returns, and what it leaves where it raises or is stopped.
use orichum.Base.{
  ℕ, String, Bool, true, false, Option, none, some, List, ◌≡◌, ◌⊎◌, inl, inr, refl, sym, ◌∙◌, ap,
  arith, leb, ◌==◌, ==_iff, string_eq, option_eq,
}
use orichum.Base.Result.{Result, ok, err}
use orichum.Account.{Account, AccountError}
use orichum.ModelStacks.{NormalizedStacks}
use orichum.StackBindings.{StackBindings, Library, stack_binding_digest}
use orichum.StackStore.{StoreError, Checked}
use orichum.StackStore.Disk.{FilePath, model_path, binding_path, Files, Act, get, check, file_bytes}
use orichum.StackStore.Disk.Rules.{
  Holds, pure-Holds, raise-Holds, bind-Holds, conclude, know, Leaves, leave, know_left, weaken_left,
  reraise-Leaves, bind-Leaves,
}
use orichum.StackStore.Recovery.{max_config, max_binding}
use orichum.StackStore.Recovery.Atomic.{
  MarkerLaws, Short, Short-some, IsSettled, IsPrepared, optional-Holds,
}
use orichum.StackStore.Recovery.Finished.{recover_transaction-Holds}
use orichum.StackStore.Save.{
  StackSnapshot, lift, saved_error, validate_bindings, serialize_stacks, binding_payload,
  read_digest, check_current, read_original, publish, save_stack_at,
}
use orichum.StackStore.Save.Published.{Both, OneOf, publish-Leaves}

-- The files as they were, or as a recovery gives them back.
abbrev pub IsStore : Library → String → Option String → Files → Type 0
IsStore lib m b x = IsSettled lib (Both m b) x ⊎ IsPrepared lib m b x

-- Where a recovery gives the files of one save or of another.
abbrev pub IsBetween : Library → String → Option String → String → Option String → Files → Type 0
IsBetween lib m0 b0 m1 b1 x = IsSettled lib (OneOf m0 b0 m1 b1) x ⊎ IsPrepared lib m0 b0 x

-- The texts of an update.
pub record IsPlanned (lib : Library) (digest : String → String → ℕ → String → String)
    (updated : NormalizedStacks) (updated_bindings : StackBindings) (b0 : Option String)
    (m1 : String) (b1 : Option String) : Type 0 where
  pub model : serialize_stacks lib digest updated ≡ ok m1
  pub binding : binding_payload lib b0 updated_bindings ≡ ok b1

fresh_payload :
    (lib : Library) (b0 b1 : Option String) (v : StackBindings)
    → binding_payload lib b0 v ≡ ok b1
    → b1 ≡ none
    → b0 ≡ none
unfolding binding_payload
fresh_payload lib none b1 v h e = refl
fresh_payload lib (some t) b1 v h e = ground (arith, h, e)

no_digest : (lib : Library) (b : Option String) → stack_binding_digest lib b ≡ none → b ≡ none
unfolding stack_binding_digest
no_digest lib none h = refl
no_digest lib (some t) h = cc

some_digest :
    (lib : Library) (b : Option String) (d : String)
    → stack_binding_digest lib b ≡ some d
    → (t : String) × (b ≡ some t)
unfolding stack_binding_digest
some_digest lib none d h = cc
some_digest lib (some t) d h = (t, refl)

module _ (f s : Bool) (lib : Library) {P E S : Files → Type 0} (fail : (x : Files) → P x → E x)
    (stop : (x : Files) → P x → S x) where
  pub lift-Holds : {A : Type 0} (r : Checked A) → Holds f s P (lift r) (λ a x. P x × (r ≡ ok a)) E S
  unfolding lift
  lift-Holds (ok a) = pure-Holds f s a (λ x h. (h, refl))
  lift-Holds (err e) = raise-Holds f s e fail

  pub check-Holds :
      (b : Bool) (e : StoreError) → Holds f s P (check b e) (λ u x. P x × (b ≡ true)) E S
  check-Holds true e = pure-Holds f s tt (λ x h. (h, refl))
  check-Holds false e = raise-Holds f s e fail

  pub file_bytes-Holds :
      (limit : ℕ) (p : FilePath) (v : String)
      → ((x : Files) → P x → get p x ≡ some v)
      → leb (lib.length_of v) limit ≡ true
      → Holds f s P (file_bytes lib.length_of limit p) (λ t x. P x × (t ≡ v)) E S
  unfolding file_bytes
  file_bytes-Holds limit p v q small =
      bind-Holds f s {Q = λ o x. P x × (o ≡ some v)}
        (optional-Holds f s lib.length_of limit p (λ x h. (h, q x h)) (λ x e h. fail x h)
          (λ x t h. stop x h)
          (λ x t h e n. let k = q x h in let same : t ≡ v = cc in ground (arith, small, same, n)))
        λ o. know f s λ e. rw e (pure-Holds f s v (λ x h. (h, refl)))

  pub read_digest-Holds :
      (b : Option String)
      → ((x : Files) → P x → x.bindings ≡ b)
      → Short lib max_binding b
      → Holds f s P (read_digest lib) (λ d x. P x × (stack_binding_digest lib b ≡ d)) E S
  unfolding read_digest get
  read_digest-Holds b q small =
      bind-Holds f s {Q = λ o x. P x × (o ≡ b)}
        (optional-Holds f s lib.length_of max_binding binding_path (λ x h. (h, q x h))
          (λ x e h. fail x h) (λ x t h. stop x h)
          (λ x t h e n.
            let k = Short-some lib max_binding b t small (sym (q x h) ∙ e) in ground (arith, k, n)))
        λ o.
          pure-Holds f s (stack_binding_digest lib o)
            (λ x h. (h.0, ap (stack_binding_digest lib) (sym h.1)))

  pub check_current-Holds :
      (stack_digest : String) (binding_digest : Option String) (current : String)
      (b : Option String)
      → ((x : Files) → P x → x.bindings ≡ b)
      → Short lib max_binding b
      → Holds f s P
          (check_current lib stack_digest binding_digest current)
          (λ u x.
            P x
            × ((lib.hash current ≡ stack_digest) × (stack_binding_digest lib b ≡ binding_digest)))
          E
          S
  unfolding check_current
  check_current-Holds sd bd current b q small =
      bind-Holds f s (check-Holds (lib.hash current == sd) StoreError.changed) λ u. know f s λ h1.
        bind-Holds f s (read_digest-Holds b q small) λ d. know f s λ h2.
          conclude f s
            (λ u' x h. (h.0, ((==_iff (lib.hash current) sd).0 h1, h2 ∙ (==_iff d bd).0 h.1)))
            (check-Holds (d == bd) StoreError.changed)

  read_original-Holds :
      (d : Option String) (b : Option String)
      → stack_binding_digest lib b ≡ d
      → ((x : Files) → P x → x.bindings ≡ b)
      → Short lib max_binding b
      → Holds f s P (read_original lib d) (λ o x. P x × (o ≡ b)) E S
  unfolding read_original get
  read_original-Holds none b h q small = pure-Holds f s none (λ x p. (p, sym (no_digest lib b h)))
  read_original-Holds (some d) b h q small =
      let (t, e) = some_digest lib b d h in
      bind-Holds f s
        (file_bytes-Holds max_binding binding_path t (λ x p. q x p ∙ e)
          (Short-some lib max_binding b t small e))
        λ text. pure-Holds f s (some text) (λ x p. (p.0, ap some p.1 ∙ sym e))

module _ (lib : Library) (digest : String → String → ℕ → String → String)
    (registry : Result AccountError (List Account)) (snapshot : StackSnapshot)
    (updated : NormalizedStacks) (updated_bindings : StackBindings) (m0 : String)
    (b0 : Option String) where
  -- The new texts stand in the files.
  pub record IsSaved (x : Files) : Type 0 where
    pub m1 : String
    pub b1 : Option String
    pub planned : IsPlanned lib digest updated updated_bindings b0 m1 b1
    pub unchanged :
        (lib.hash m0 ≡ snapshot.stack_digest)
        × (stack_binding_digest lib b0 ≡ snapshot.binding_digest)
    pub valid : validate_bindings registry updated updated_bindings ≡ ok tt
    pub settled : IsSettled lib (Both m1 b1) x

  -- A recovery gives the old files, or those of the update.
  pub record IsCut (x : Files) : Type 0 where
    pub m1 : String
    pub b1 : Option String
    pub planned : IsPlanned lib digest updated updated_bindings b0 m1 b1
    pub between : IsBetween lib m0 b0 m1 b1 x

module _ (lib : Library) (laws : MarkerLaws lib) (digest : String → String → ℕ → String → String)
    (registry : Result AccountError (List Account)) (snapshot : StackSnapshot)
    (updated : NormalizedStacks) (updated_bindings : StackBindings) (m0 : String)
    (b0 : Option String) (small_model : leb (lib.length_of m0) max_config ≡ true)
    (small_binding : Short lib max_binding b0) where
  abbrev Saved : Files → Type 0
  Saved = IsSaved lib digest registry snapshot updated updated_bindings m0 b0

  abbrev Cut : Files → Type 0
  Cut = IsCut lib digest registry snapshot updated updated_bindings m0 b0

  module _ (f s : Bool) where
    abbrev pub Failed : Files → Type 0
    Failed x = f ≡ false → IsStore lib m0 b0 x

    abbrev pub Stopped : Files → Type 0
    Stopped x = f ≡ false → IsStore lib m0 b0 x ⊎ Cut x

    abbrev IsOld : Files → Type 0
    IsOld = IsSettled lib (Both m0 b0)

    fail : (x : Files) → IsOld x → Failed x
    fail x h n = inl h

    stop : (x : Files) → IsOld x → Stopped x
    stop x h n = inl (inl h)

    keep :
        {A : Type 0} {m : Act A} {Q : A → Files → Type 0}
        → Holds f s IsOld m Q Failed Stopped
        → Leaves f s IsOld m Q Failed Stopped
    keep = leave f s (λ x h. h) (λ x h. h)

    publish_rest :
        (unchanged : (lib.hash m0 ≡ snapshot.stack_digest)
          × (stack_binding_digest lib b0 ≡ snapshot.binding_digest))
        (m1 : String) (b1 : Option String)
        → IsPlanned lib digest updated updated_bindings b0 m1 b1
        → validate_bindings registry updated updated_bindings ≡ ok tt
        → Leaves f s IsOld (publish lib m0 b0 m1 b1) (λ u. Saved) Failed Stopped
    publish_rest unchanged m1 b1 planned valid =
        weaken_left f s
          (λ u x h. record {
            m1 = m1;
            b1 = b1;
            planned = planned;
            unchanged = unchanged;
            valid = valid;
            settled = h;
          })
          (λ x h n. inr (record { m1 = m1; b1 = b1; planned = planned; between = h n }))
          (publish-Leaves f s lib laws m0 b0 m1 b1
            (fresh_payload lib b0 b1 updated_bindings planned.binding) small_model small_binding
            (λ e z n. cc) b0 refl)

    pub save_stack_at-Leaves :
        Leaves f s
          (IsStore lib m0 b0)
          (save_stack_at lib digest registry snapshot updated updated_bindings)
          (λ u. Saved)
          Failed
          Stopped
    unfolding save_stack_at get
    save_stack_at-Leaves = reraise-Leaves f s saved_error (
        bind-Leaves f s
          (leave f s (λ x h n. cc) (λ x h n. inl h.1)
            (recover_transaction-Holds f s lib laws (Both m0 b0) m0 b0 (refl, refl) small_model
              small_binding))
          λ u1.
            bind-Leaves f s
              (keep (
                file_bytes-Holds f s lib fail stop max_config model_path m0 (λ x h. h.good.0)
                  small_model))
              λ current. know_left f s λ e1. rw e1 (
                bind-Leaves f s
                  (keep (
                    check_current-Holds f s lib fail stop snapshot.stack_digest
                      snapshot.binding_digest m0 b0 (λ x h. h.good.1) small_binding))
                  λ u2. know_left f s λ unchanged.
                    bind-Leaves f s
                      (keep (lift-Holds f s lib fail stop (serialize_stacks lib digest updated)))
                      λ m1. know_left f s λ e2.
                        bind-Leaves f s
                          (keep (
                            lift-Holds f s lib fail stop
                              (validate_bindings registry updated updated_bindings)))
                          λ u3. know_left f s λ e3.
                            bind-Leaves f s
                              (keep (
                                read_original-Holds f s lib fail stop snapshot.binding_digest b0
                                  unchanged.1 (λ x h. h.good.1) small_binding))
                              λ original. know_left f s λ e4. rw e4 (
                                bind-Leaves f s
                                  (keep (
                                    lift-Holds f s lib fail stop
                                      (binding_payload lib b0 updated_bindings)))
                                  λ b1. know_left f s λ e5.
                                    publish_rest unchanged m1 b1
                                      (record { model = e2; binding = e5 }) e3)))
