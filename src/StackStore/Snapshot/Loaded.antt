-- ===== src/StackStore/Snapshot/Loaded.antt =====
-- What a snapshot says of the files.
use orichum.Base.{
  ℕ, String, true, Option, ◌≡◌, ◌↔◌, refl, sym, subst, leb, ◌==◌, option_eq, string_eq, arith, In,
}
use orichum.Base.Result.{Result, ok, err}
use orichum.StackBindings.{
  BindingError, StackBindings, Library, load_stack_bindings, stack_binding_digest,
}
use orichum.StackStore.{StoreError, candidate_ids}
use orichum.StackStore.Deleted.{locks_iff}
use orichum.StackStore.Disk.{
  model_path, binding_path, Files, World, Exit, returned, raised, stopped, Act, get,
}
use orichum.StackStore.Disk.Rules.{
  Holds, bind-Holds, conclude, know, pure-Holds, leave, Leaves, Left, bind-Leaves, know_left,
}
use orichum.StackStore.Recovery.{max_config, max_binding}
use orichum.StackStore.Recovery.Atomic.{MarkerLaws, Short, IsSettled, optional-Holds}
use orichum.StackStore.Recovery.Finished.{Runs-any, recover_transaction-Holds}
use orichum.StackStore.Save.{StackSnapshot}
use orichum.StackStore.Save.Published.{Both}
use orichum.StackStore.Save.Saved.{
  IsStore, lift-Holds, check-Holds, file_bytes-Holds, read_digest-Holds,
}
use orichum.StackStore.Snapshot.{
  as_store_error, current_bindings, decode_stacks, read_bindings, load_stack_snapshot,
}

as_store_error-ok :
    {A : Type 0} (r : Result BindingError A) (a : A) → as_store_error r ≡ ok a → r ≡ ok a
unfolding as_store_error
as_store_error-ok (ok x) a h = ground (arith, h)
as_store_error-ok (err e) a h = cc

module _ (lib : Library) (digest : String → String → ℕ → String → String) (m0 : String)
    (b0 : Option String) where
  -- A snapshot of these two texts.
  pub record IsSnapshot (snapshot : StackSnapshot) : Type 0 where
    pub stacks : decode_stacks lib digest m0 ≡ ok snapshot.stacks
    pub stack_digest : snapshot.stack_digest ≡ lib.hash m0
    pub binding_digest : snapshot.binding_digest ≡ stack_binding_digest lib b0
    pub stored : StackBindings
    pub loaded : load_stack_bindings lib b0 ≡ ok stored
    pub locks :
        (lock : String × String)
        → In lock snapshot.bindings.candidate_accounts
          ↔ (In lock stored.candidate_accounts × In lock.0 (candidate_ids snapshot.stacks))

module _ (lib : Library) (laws : MarkerLaws lib) (digest : String → String → ℕ → String → String)
    (m0 : String) (b0 : Option String) (small_model : leb (lib.length_of m0) max_config ≡ true)
    (small_binding : Short lib max_binding b0) where
  abbrev IsOld : Files → Type 0
  IsOld = IsSettled lib (Both m0 b0)

  abbrev Any : Files → Type 0
  Any x = Unit {0}

  any : (x : Files) → IsOld x → Any x
  any x h = tt

  keep :
      {A : Type 0} {m : Act A} {Q : A → Files → Type 0}
      → Holds true true IsOld m Q Any Any
      → Leaves true true IsOld m Q Any Any
  keep = leave true true (λ x h. h) (λ x h. h)

  read_bindings-Holds :
      Holds true true IsOld
        (read_bindings lib digest)
        (λ v x. IsOld x × (load_stack_bindings lib b0 ≡ ok v))
        Any
        Any
  unfolding read_bindings get
  read_bindings-Holds =
      bind-Holds true true {Q = λ o x. IsOld x × (o ≡ b0)}
        (optional-Holds true true lib.length_of max_binding binding_path (λ x h. (h, h.good.1))
          (λ x e h. tt) (λ x e h. tt) (λ x t h e n. tt))
        λ o. know true true λ e. rw e (
          conclude true true (λ v x h. (h.0, as_store_error-ok (load_stack_bindings lib b0) v h.1))
            (lift-Holds true true lib any any (as_store_error (load_stack_bindings lib b0))))

  load_stack_snapshot-Leaves :
      Leaves true true
        (IsStore lib m0 b0)
        (load_stack_snapshot lib digest)
        (λ v x. IsOld x × IsSnapshot lib digest m0 b0 v)
        Any
        Any
  unfolding load_stack_snapshot current_bindings get
  load_stack_snapshot-Leaves =
      bind-Leaves true true
        (leave true true (λ x h. tt) (λ x h. tt)
          (recover_transaction-Holds true true lib laws (Both m0 b0) m0 b0 (refl, refl) small_model
            small_binding))
        λ u1.
          bind-Leaves true true
            (keep (
              file_bytes-Holds true true lib any any max_config model_path m0 (λ x h. h.good.0)
                small_model))
            λ content. know_left true true λ e1. rw e1 (
              bind-Leaves true true
                (keep (lift-Holds true true lib any any (decode_stacks lib digest m0)))
                λ stacks. know_left true true λ e2.
                  bind-Leaves true true
                    (keep
                      (read_digest-Holds true true lib any any b0 (λ x h. h.good.1) small_binding))
                    λ d. know_left true true λ e3.
                      bind-Leaves true true (keep read_bindings-Holds) λ stored.
                        know_left true true λ e4.
                          bind-Leaves true true
                            (keep (
                              read_digest-Holds true true lib any any b0 (λ x h. h.good.1)
                                small_binding))
                            λ again. know_left true true λ e5.
                              bind-Leaves true true
                                (keep (
                                  check-Holds true true lib any any (again == d)
                                    StoreError.changed))
                                λ u2. know_left true true λ e6.
                                  bind-Leaves true true
                                    (keep (
                                      lift-Holds true true lib any any
                                        (current_bindings stacks stored)))
                                    λ current. know_left true true λ e7. keep (
                                      pure-Holds true true _ (λ x h. (
                                        h,
                                        record {
                                          stacks = e2;
                                          stack_digest = refl;
                                          binding_digest = sym e3;
                                          stored = stored;
                                          loaded = e4;
                                          locks = λ lock.
                                              locks_iff stacks stored current lock
                                                (as_store_error-ok _ current e7);
                                        },
                                      ))))

  loaded_of :
      (x : Exit StackSnapshot × World) (v : StackSnapshot) (w : World)
      → Left true true (λ u y. IsOld y × IsSnapshot lib digest m0 b0 u) Any Any x
      → x ≡ (returned v, w)
      → IsOld w.files × IsSnapshot lib digest m0 b0 v
  loaded_of (returned u, y) v w h e =
      let p : u ≡ v = cc in
      let q : y ≡ w = cc in
      (subst (λ (z : World). IsOld z.files) q h.1.0, subst (IsSnapshot lib digest m0 b0) p h.1.1)
  loaded_of (raised e, y) v w h q = cc
  loaded_of (stopped, y) v w h q = cc

  -- However the calls come out: a snapshot that is returned has the stacks of the model's text, the
  -- digests of both texts, and of the locks in the bindings' text those of the candidates that the
  -- stacks have; and the two files hold these texts, with no transaction open.
  pub load_stack_snapshot-IsSnapshot :
      (w w' : World) (v : StackSnapshot)
      → IsStore lib m0 b0 w.files
      → load_stack_snapshot lib digest w ≡ (returned v, w')
      → IsSettled lib (Both m0 b0) w'.files × IsSnapshot lib digest m0 b0 v
  load_stack_snapshot-IsSnapshot w w' v h e =
      loaded_of (load_stack_snapshot lib digest w) v w'
        (load_stack_snapshot-Leaves.run w (Runs-any w.outcomes) h) e
