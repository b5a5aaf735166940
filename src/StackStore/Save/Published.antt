-- ===== src/StackStore/Save/Published.antt =====
-- What `publish` leaves: the new files where it returns, and, where no call fails, at any stop either the
-- old files or the new ones, once the transaction is recovered.
use orichum.Base.{
  String, Bool, true, false, Option, none, some, ◌≡◌, ◌⊎◌, inl, inr, refl, sym, ◌∙◌, ap, subst, leb,
}
use orichum.StackBindings.{Library}
use orichum.StackStore.Disk.{
  is_given, model_original, Files, set, replace, unlink, stage, fsync_directory,
  replace_private_file, call,
}
use orichum.StackStore.Disk.Rules.{
  Holds, call-Holds, pure-Holds, bind-Holds, Leaves, leave, rescue-Leaves, bind-Leaves,
}
use orichum.StackStore.Recovery.{
  pending, committed, marker_payload, write_transaction_marker, cleanup_after_commit, stage_given,
  max_config, max_binding,
}
use orichum.StackStore.Recovery.Atomic.{MarkerLaws, Short, IsSettled, IsPrepared, cleanup-Holds}
use orichum.StackStore.Recovery.Finished.{Short-config}
use orichum.StackStore.Save.{saved_error, keep_original, prepare, put_given, commit, undo, publish}

-- Both files as given.
abbrev pub Both : String → Option String → Option String → Option String → Type 0
Both m b x y = (x ≡ some m) × (y ≡ b)

abbrev pub OneOf :
    String → Option String → String → Option String → Option String → Option String → Type 0
OneOf m0 b0 m1 b1 x y = Both m0 b0 x y ⊎ Both m1 b1 x y

module _ (f s : Bool) (lib : Library) (laws : MarkerLaws lib) (m0 : String) (b0 : Option String)
    (m1 : String) (b1 : Option String) (fresh : b1 ≡ none → b0 ≡ none)
    (small_model : leb (lib.length_of m0) max_config ≡ true)
    (small_binding : Short lib max_binding b0) where
  abbrev pub IsOld : Files → Type 0
  IsOld = IsSettled lib (Both m0 b0)

  abbrev pub IsNew : Files → Type 0
  IsNew = IsSettled lib (Both m1 b1)

  -- Where a recovery gives the old files or the new ones.
  abbrev pub IsEither : Files → Type 0
  IsEither x = IsSettled lib (OneOf m0 b0 m1 b1) x ⊎ IsPrepared lib m0 b0 x

  abbrev pub Stopped : Files → Type 0
  Stopped x = f ≡ false → IsEither x

  abbrev Failed : Files → Type 0
  Failed x = f ≡ true

  settled-IsEither : (x : Files) → IsOld x → IsEither x
  settled-IsEither x h = inl (record {
    marked = h.marked;
    good = inl h.good;
    short_model = h.short_model;
    short_binding = h.short_binding;
  })

  new-IsEither : (x : Files) → IsNew x → IsEither x
  new-IsEither x h = inl (record {
    marked = h.marked;
    good = inr h.good;
    short_model = h.short_model;
    short_binding = h.short_binding;
  })

  -- A call that keeps `P`, or turns it into `Q`.
  turn :
      {A : Type 0} {P : Files → Type 0} {Q : A → Files → Type 0} (step : Files → A × Files)
      → ((x : Files) → P x → Q (step x).0 (step x).1)
      → ((x : Files) → P x → IsEither x)
      → Holds f s P (call step) Q Failed Stopped
  turn step q k = call-Holds f s step q (λ x e h. e) (λ x t h n. k x h)

  abbrev IsStart : Files → Type 0
  IsStart x = IsPrepared lib m0 b0 x × Both m0 b0 x.model x.bindings

  abbrev IsPut : Files → Type 0
  IsPut x = IsPrepared lib m0 b0 x × (x.bindings ≡ b1)

  -- The copies, each made while the old files stand.
  abbrev HasModel : Files → Type 0
  HasModel x = IsOld x × (x.model_copy ≡ some m0)

  abbrev HasCopies : Files → Type 0
  HasCopies x = IsOld x × (x.model_copy ≡ some m0) × (x.binding_copy ≡ b0)

  stage-Holds : Holds f s IsOld stage (λ u. IsOld) Failed Stopped
  unfolding stage
  stage-Holds = turn _ (λ x h. h) settled-IsEither

  stage_given-Holds :
      (b : Option String) → Holds f s IsOld (stage_given lib b) (λ u. IsOld) Failed Stopped
  unfolding stage_given
  stage_given-Holds none = pure-Holds f s tt (λ x h. h)
  stage_given-Holds (some t) = stage-Holds

  copy_model-Holds :
      Holds f s IsOld (replace_private_file model_original m0) (λ u. HasModel) Failed Stopped
  unfolding replace_private_file replace set
  copy_model-Holds = bind-Holds f s stage-Holds λ u.
      turn _
        (λ x h. (
          record {
            marked = h.marked;
            good = h.good;
            short_model = small_model;
            short_binding = h.short_binding;
          },
          refl,
        ))
        settled-IsEither

  keep_original-Holds :
      (b : Option String)
      → b ≡ b0
      → Holds f s HasModel (keep_original b) (λ u. HasCopies) Failed Stopped
  unfolding keep_original replace_private_file replace unlink stage set
  keep_original-Holds none e =
      turn _
        (λ x h. (
          record {
            marked = h.0.marked;
            good = h.0.good;
            short_model = h.0.short_model;
            short_binding = tt;
          },
          h.1,
          e,
        ))
        (λ x h. settled-IsEither x h.0)
  keep_original-Holds (some t) e =
      bind-Holds f s {Q = λ u. HasModel} (turn _ (λ x h. h) (λ x h. settled-IsEither x h.0)) λ u.
        turn _
          (λ x h. (
            record {
              marked = h.0.marked;
              good = h.0.good;
              short_model = h.0.short_model;
              short_binding =
                  subst (Short lib max_config) (sym e) (Short-config lib b0 small_binding);
            },
            h.1,
            e,
          ))
          (λ x h. settled-IsEither x h.0)

  open_transaction :
      (b : Option String)
      → b ≡ b0
      → Holds f s HasCopies
          (write_transaction_marker lib pending (is_given b))
          (λ u. IsStart)
          Failed
          Stopped
  unfolding write_transaction_marker replace_private_file replace stage set
  open_transaction b e =
      bind-Holds f s {Q = λ u. HasCopies} (turn _ (λ x h. h) (λ x h. settled-IsEither x h.0)) λ u.
        turn _
          (λ x h. (
            record {
              marked = ap (λ o. some (marker_payload lib pending (is_given o))) e;
              model_kept = h.1;
              binding_kept = h.2;
            },
            h.0.good,
          ))
          (λ x h. settled-IsEither x h.0)

  prepare-Holds :
      (b : Option String)
      → b ≡ b0
      → Holds f s IsOld (prepare lib m0 b b1) (λ u. IsStart) Failed Stopped
  unfolding prepare fsync_directory
  prepare-Holds b e = bind-Holds f s stage-Holds λ u1. bind-Holds f s (stage_given-Holds b1) λ u2.
      bind-Holds f s copy_model-Holds λ u3. bind-Holds f s (keep_original-Holds b e) λ u4.
        bind-Holds f s {Q = λ u. HasCopies} (turn _ (λ x h. h) (λ x h. settled-IsEither x h.0))
          λ u5. bind-Holds f s (open_transaction b e) λ u6. turn _ (λ x h. h) (λ x h. inr h.0)

  put_given-Holds :
      (b : Option String) → b ≡ b1 → Holds f s IsStart (put_given b) (λ u. IsPut) Failed Stopped
  unfolding put_given replace set
  put_given-Holds none e = pure-Holds f s tt (λ x h. (h.0, h.1.1 ∙ fresh (sym e) ∙ e))
  put_given-Holds (some t) e =
      turn _
        (λ x h. (
          record {
            marked = h.0.marked;
            model_kept = h.0.model_kept;
            binding_kept = h.0.binding_kept;
          },
          e,
        ))
        (λ x h. inr h.0)

  abbrev IsWritten : Files → Type 0
  IsWritten x = IsPrepared lib m0 b0 x × Both m1 b1 x.model x.bindings

  close_transaction :
      (e : Bool)
      → Holds f s IsWritten (write_transaction_marker lib committed e) (λ u. IsNew) Failed Stopped
  unfolding write_transaction_marker replace_private_file replace stage set
  close_transaction e =
      bind-Holds f s {Q = λ u. IsWritten} (turn _ (λ x h. h) (λ x h. inr h.0)) λ u.
        turn _
          (λ x h. record {
            marked = inr (e, refl);
            good = h.1;
            short_model = subst (Short lib max_config) (sym h.0.model_kept) small_model;
            short_binding =
                subst (Short lib max_config) (sym h.0.binding_kept)
                  (Short-config lib b0 small_binding);
          })
          (λ x h. inr h.0)

  commit-Holds :
      (b : Option String) → Holds f s IsStart (commit lib m1 b b1) (λ u. IsNew) Failed Stopped
  unfolding commit fsync_directory replace set
  commit-Holds b = bind-Holds f s (put_given-Holds b1 refl) λ u1.
      bind-Holds f s {Q = λ u. IsWritten}
        (turn _
          (λ x h. (
            record {
              marked = h.0.marked;
              model_kept = h.0.model_kept;
              binding_kept = h.0.binding_kept;
            },
            (refl, h.1),
          ))
          (λ x h. inr h.0))
        λ u2.
          bind-Holds f s {Q = λ u. IsWritten} (turn _ (λ x h. h) (λ x h. inr h.0)) λ u3.
            bind-Holds f s (close_transaction (is_given b)) λ u4. turn _ (λ x h. h) new-IsEither

  -- An exception is possible only where a call fails, and then nothing is said of the files.
  given_failure :
      {E : Files → Type 0}
      → (f ≡ true → (z : Files) → E z)
      → (y : Files) → Failed y
      → ((z : Files) → E z) × ((z : Files) → Stopped z)
  given_failure k y h = (k h, λ z n. cc)

  pub publish-Leaves :
      {E : Files → Type 0}
      → (f ≡ true → (z : Files) → E z)
      → (b : Option String) → b ≡ b0
      → Leaves f s IsOld (publish lib m0 b m1 b1) (λ u. IsNew) E Stopped
  unfolding publish
  publish-Leaves k b e =
      bind-Leaves f s
        (rescue-Leaves f s (λ y. cleanup_after_commit lib) saved_error (prepare-Holds b e)
          (given_failure k))
        λ u1.
          bind-Leaves f s
            (rescue-Leaves f s (λ y. undo lib b) saved_error (commit-Holds b) (given_failure k))
            λ u2.
              leave f s {E = Failed} (λ y h. k h y) (λ y h. h)
                (cleanup-Holds f s lib laws (Both m1 b1) (λ x t h n. new-IsEither x h))
