-- ===== src/StackStore/Restore/Restored.antt =====
-- What a restoration leaves, however its calls come out.
use orichum.Base.{String, true, Option, none, some, ◌≡◌, ◌⊎◌, inl, inr, refl, sym, subst, leb}
use orichum.StackBindings.{Library, stack_binding_digest}
use orichum.StackStore.Disk.{
  is_given, model_path, model_original, Files, World, Exit, returned, raised, stopped, get, set,
  replace, unlink, stage, fsync_directory, replace_private_file, call,
}
use orichum.StackStore.Disk.Rules.{
  Holds, call-Holds, bind-Holds, Leaves, Left, leave, know_left, weaken_left, bind-Leaves,
}
use orichum.StackStore.Recovery.{pending, max_config, max_binding, write_transaction_marker}
use orichum.StackStore.Recovery.Atomic.{MarkerLaws, Short, IsSettled, IsPrepared}
use orichum.StackStore.Recovery.Finished.{Short-config, Runs-any, recover_transaction-Holds}
use orichum.StackStore.Save.{keep_original}
use orichum.StackStore.Save.Published.{Both}
use orichum.StackStore.Save.Saved.{IsStore, file_bytes-Holds, check_current-Holds}
use orichum.StackStore.Restore.{put_originals, restore_stack_files}

module _ (lib : Library) (laws : MarkerLaws lib) (m0 : String) (b0 : Option String) (m : String)
    (b : Option String) (small_model : leb (lib.length_of m0) max_config ≡ true)
    (small_binding : Short lib max_binding b0)
    (small_original : leb (lib.length_of m) max_config ≡ true)
    (small_original_binding : Short lib max_binding b) where
  -- A recovery gives the files as they were, or the originals.
  abbrev IsEither : Files → Type 0
  IsEither x = IsStore lib m0 b0 x ⊎ IsStore lib m b x

  abbrev IsOld : Files → Type 0
  IsOld = IsSettled lib (Both m0 b0)

  abbrev HasModel : Files → Type 0
  HasModel x = IsOld x × (x.model_copy ≡ some m)

  abbrev HasCopies : Files → Type 0
  HasCopies x = HasModel x × (x.binding_copy ≡ b)

  abbrev IsPut : Files → Type 0
  IsPut = IsSettled lib (Both m b)

  turn :
      {A : Type 0} {P : Files → Type 0} {Q : A → Files → Type 0} (step : Files → A × Files)
      → ((x : Files) → P x → Q (step x).0 (step x).1)
      → ((x : Files) → P x → IsEither x)
      → Holds true true P (call step) Q IsEither IsEither
  turn step q k = call-Holds true true step q (λ x e h. k x h) (λ x e h. k x h)

  old : (x : Files) → IsOld x → IsEither x
  old x h = inl (inl h)

  copy_model-Holds :
      Holds true true IsOld
        (replace_private_file model_original m)
        (λ u. HasModel)
        IsEither
        IsEither
  unfolding replace_private_file replace stage set
  copy_model-Holds = bind-Holds true true {Q = λ u. IsOld} (turn _ (λ x h. h) old) λ u.
      turn _
        (λ x h. (
          record {
            marked = h.marked;
            good = h.good;
            short_model = small_original;
            short_binding = h.short_binding;
          },
          refl,
        ))
        old

  copy_binding :
      (c : Option String)
      → c ≡ b
      → (x : Files) → HasModel x
      → HasCopies (record x { binding_copy = c })
  copy_binding c e x h = (
    (
      record {
        marked = h.0.marked;
        good = h.0.good;
        short_model = h.0.short_model;
        short_binding =
            subst (Short lib max_config) (sym e) (Short-config lib b small_original_binding);
      },
      h.1,
    ),
    e,
  )

  keep_original-Holds :
      (c : Option String)
      → c ≡ b
      → Holds true true HasModel (keep_original c) (λ u. HasCopies) IsEither IsEither
  unfolding keep_original replace_private_file replace unlink stage set
  keep_original-Holds none e = turn _ (copy_binding none e) (λ x h. old x h.0)
  keep_original-Holds (some t) e =
      bind-Holds true true {Q = λ u. HasModel} (turn _ (λ x h. h) (λ x h. old x h.0))
        λ u. turn _ (copy_binding (some t) e) (λ x h. old x h.0)

  open_transaction :
      Holds true true HasCopies
        (write_transaction_marker lib pending (is_given b))
        (λ u. IsPrepared lib m b)
        IsEither
        IsEither
  unfolding write_transaction_marker replace_private_file replace stage set
  open_transaction =
      bind-Holds true true {Q = λ u. HasCopies} (turn _ (λ x h. h) (λ x h. old x h.0.0)) λ u.
        turn _ (λ x h. record { marked = refl; model_kept = h.0.1; binding_kept = h.1 })
          (λ x h. old x h.0.0)

  put_originals-Leaves :
      Leaves true true IsOld (put_originals lib (some m) b) (λ u. IsPut) IsEither IsEither
  unfolding put_originals fsync_directory
  put_originals-Leaves =
      bind-Leaves true true (leave true true (λ x h. h) (λ x h. h) copy_model-Holds) λ u1.
        bind-Leaves true true (leave true true (λ x h. h) (λ x h. h) (keep_original-Holds b refl))
          λ u2. bind-Leaves true true (leave true true (λ x h. h) (λ x h. h) open_transaction) λ u3.
            bind-Leaves true true {Q = λ u x. IsStore lib m b x}
              (leave true true (λ x h. h) (λ x h. h) (turn _ (λ x h. inr h) (λ x h. inr (inr h))))
              λ u4.
                leave true true (λ x h. inr h.1) (λ x h. inr h.1)
                  (recover_transaction-Holds true true lib laws (Both m b) m b (refl, refl)
                    small_original small_original_binding)

  restore_stack_files-Leaves :
      (expected_stack : String) (expected_binding : Option String)
      → Leaves true true
          (IsStore lib m0 b0)
          (restore_stack_files lib expected_stack expected_binding (some m) b)
          (λ u x.
            IsPut x
            × (lib.hash m0 ≡ expected_stack)
            × (stack_binding_digest lib b0 ≡ expected_binding))
          IsEither
          IsEither
  unfolding restore_stack_files get
  restore_stack_files-Leaves es eb =
      bind-Leaves true true
        (leave true true (λ x h. inl h.1) (λ x h. inl h.1)
          (recover_transaction-Holds true true lib laws (Both m0 b0) m0 b0 (refl, refl) small_model
            small_binding))
        λ u1.
          bind-Leaves true true
            (leave true true (λ x h. h) (λ x h. h)
              (file_bytes-Holds true true lib old old max_config model_path m0 (λ x h. h.good.0)
                small_model))
            λ current. know_left true true λ e. rw e (
              bind-Leaves true true
                (leave true true (λ x h. h) (λ x h. h)
                  (check_current-Holds true true lib old old es eb m0 b0 (λ x h. h.good.1)
                    small_binding))
                λ u2. know_left true true λ same.
                  weaken_left true true (λ u x h. (h, same.0, same.1)) (λ x h. h)
                    put_originals-Leaves)

  files_of :
      (es : String) (eb : Option String) (x : Exit (Unit {0}) × World)
      → Left true true
          (λ u y. IsPut y × (lib.hash m0 ≡ es) × (stack_binding_digest lib b0 ≡ eb))
          IsEither
          IsEither
          x
      → IsEither x.1.files
        × ((w : World)
            → x ≡ (returned tt, w)
            → IsPut w.files × (lib.hash m0 ≡ es) × (stack_binding_digest lib b0 ≡ eb))
  files_of es eb (returned u, v) h = (
    inr (inl h.1.0),
    λ w e.
        let q : v ≡ w = cc in
        subst
          (λ (y : World). IsPut y.files × (lib.hash m0 ≡ es) × (stack_binding_digest lib b0 ≡ eb)) q
          h.1,
  )
  files_of es eb (raised y, v) h = (h, λ w e. cc)
  files_of es eb (stopped, v) h = (h, λ w e. cc)

  -- However the calls come out, also where they fail: after a restoration of two files that exist, a
  -- recovery gives the files as they were or the originals. Where the restoration returns, the originals
  -- stand in the files, no transaction is open, and the files had the expected digests.
  pub restore_stack_files-IsStore :
      (expected_stack : String) (expected_binding : Option String) (w : World)
      → IsStore lib m0 b0 w.files
      → let x = restore_stack_files lib expected_stack expected_binding (some m) b w in
        (IsStore lib m0 b0 x.1.files ⊎ IsStore lib m b x.1.files)
        × ((w' : World)
            → x ≡ (returned tt, w')
            → IsSettled lib (Both m b) w'.files
              × (lib.hash m0 ≡ expected_stack)
              × (stack_binding_digest lib b0 ≡ expected_binding))
  restore_stack_files-IsStore es eb w h =
      files_of es eb (restore_stack_files lib es eb (some m) b w)
        ((restore_stack_files-Leaves es eb).run w (Runs-any w.outcomes) h)
