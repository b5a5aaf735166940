-- ===== src/StackStore/Recovery/Atomic.antt =====
-- What a recovery leaves, finished or cut short.
use orichum.Base.{
  ℕ, String, Bool, true, false, Option, none, some, ◌≡◌, ◌⊎◌, inl, inr, refl, sym, ◌∙◌, subst,
  arith, leb, Bool-cases, string_eq, nat_eq,
}
use orichum.Json.{has_exactly, item}
use orichum.Base.Dict.{lookup}
use orichum.StackBindings.{Library}
use orichum.StackStore.Disk.{
  is_given, FilePath, binding_path, model_original, binding_original, marker_path, Files, get, set,
  read, replace, unlink, stage, fsync_directory, optional_private_bytes, within,
}
use orichum.StackStore.Disk.Rules.{
  Holds, call-Holds, pure-Holds, raise-Holds, rescue-Holds, bind-Holds, know,
}
use orichum.StackStore.Recovery.{
  Phase, pending, committed, phase_name, marker_json, phase_of, is_first_version, existed_of,
  parse_marker, marker_payload, unlink_given, remove_recovery_artifacts, cleanup_after_commit,
  given_original, stage_given, put_binding, check_original, restore_originals, max_config,
  max_binding,
}

-- The JSON library reads the two markers that it writes, and they are short.
pub record MarkerLaws (lib : Library) : Type 0 where
  pub reads : (p : Phase) (e : Bool) → lib.loads (marker_payload lib p e) ≡ some (marker_json p e)
  pub small : (p : Phase) (e : Bool) → leb (lib.length_of (marker_payload lib p e)) 4096 ≡ true

pub parse_marker-json :
    (p : Phase) (e : Bool)
    → parse_marker (marker_json p e) ≡ some (record { state = p; binding_existed = e })
unfolding parse_marker marker_json phase_name phase_of is_first_version existed_of has_exactly item
    lookup string_eq nat_eq
parse_marker-json pending e = refl
parse_marker-json committed e = refl

-- A file that is missing, or within the limit.
abbrev pub Short : Library → ℕ → Option String → Type 0
Short lib limit none = Unit
Short lib limit (some t) = leb (lib.length_of t) limit ≡ true

pub Short-some :
    (lib : Library) (limit : ℕ) (o : Option String) (t : String)
    → Short lib limit o
    → o ≡ some t
    → leb (lib.length_of t) limit ≡ true
Short-some lib limit none t h e = cc
Short-some lib limit (some u) t h e = ground (arith, h, e)

-- `G` says what the two files may hold once no transaction is open.
pub record IsSettled (lib : Library) (G : Option String → Option String → Type 0) (x : Files)
    : Type 0 where
  pub marked : (x.marker ≡ none) ⊎ ((e : Bool) × (x.marker ≡ some (marker_payload lib committed e)))
  pub good : G x.model x.bindings
  pub short_model : Short lib max_config x.model_copy
  pub short_binding : Short lib max_config x.binding_copy

-- An open transaction, with copies of what the files held.
pub record IsPrepared (lib : Library) (m0 : String) (b0 : Option String) (x : Files) : Type 0 where
  pub marked : x.marker ≡ some (marker_payload lib pending (is_given b0))
  pub model_kept : x.model_copy ≡ some m0
  pub binding_kept : x.binding_copy ≡ b0

module _ (f s : Bool) (length_of : String → ℕ) where
  pub optional-Holds :
      {P : Files → Type 0} {Q : Option String → Files → Type 0} {E S : Files → Type 0} (limit : ℕ)
      (p : FilePath)
      → ((x : Files) → P x → Q (get p x) x)
      → ((x : Files) → f ≡ true → P x → E x)
      → ((x : Files) → s ≡ true → P x → S x)
      → ((x : Files) (t : String) → P x → get p x ≡ some t → leb (length_of t) limit ≡ false → E x)
      → Holds f s P (optional_private_bytes length_of limit p) Q E S
  unfolding optional_private_bytes read
  optional-Holds {P} {Q} {E} {S} limit p q e t large =
      bind-Holds f s {Q = λ o x. P x × (get p x ≡ o)}
        (call-Holds f s (λ x. (get p x, x)) (λ x h. (h, refl)) e t) rest
    where
      rest :
          (o : Option String)
          → Holds f s (λ x. P x × (get p x ≡ o)) (within length_of limit o) Q E S
      rest none = pure-Holds f s none (λ x h. subst (λ o. Q o x) h.1 (q x h.0))
      rest (some text) = elim (Bool-cases (leb (length_of text) limit)) [
        | inl y ↦ rw y (pure-Holds f s (some text) (λ x h. subst (λ o. Q o x) h.1 (q x h.0)))
        | inr n ↦ rw n (raise-Holds f s _ (λ x h. large x text h.0 h.1 n))
      ]

module _ (f s : Bool) (lib : Library) (laws : MarkerLaws lib)
    (G : Option String → Option String → Type 0) where
  abbrev pub Settled : Files → Type 0
  Settled = IsSettled lib G

  keep_read :
      {S : Files → Type 0} (limit : ℕ) (p : FilePath)
      → ((x : Files) → s ≡ true → Settled x → S x)
      → Holds f s Settled (optional_private_bytes lib.length_of limit p) (λ o. Settled) Settled S
  keep_read limit p t =
      optional-Holds f s lib.length_of limit p (λ x h. h) (λ x e h. h) t (λ x y h e n. h)

  keep_unlink :
      {S : Files → Type 0} (p : FilePath)
      → ((x : Files) → s ≡ true → Settled x → S x)
      → ((x : Files) → Settled x → Settled (set p none x))
      → (o : Option String) → Holds f s Settled (unlink_given lib p o) (λ u. Settled) Settled S
  unfolding unlink_given unlink
  keep_unlink p t k none = pure-Holds f s tt (λ x h. h)
  keep_unlink p t k (some text) = call-Holds f s _ k (λ x e h. h) t

  pub cleanup-Holds :
      {E S : Files → Type 0}
      → ((x : Files) → s ≡ true → Settled x → S x)
      → Holds f s Settled (cleanup_after_commit lib) (λ u. Settled) E S
  unfolding cleanup_after_commit remove_recovery_artifacts set fsync_directory
  cleanup-Holds t =
      rescue-Holds f s
        (bind-Holds f s (keep_read max_config model_original t) λ o.
          bind-Holds f s
            (keep_unlink model_original t
              (λ x h. record {
                marked = h.marked;
                good = h.good;
                short_model = tt;
                short_binding = h.short_binding;
              })
              o)
            λ u. bind-Holds f s (keep_read max_config binding_original t) λ o'.
              bind-Holds f s
                (keep_unlink binding_original t
                  (λ x h. record {
                    marked = h.marked;
                    good = h.good;
                    short_model = h.short_model;
                    short_binding = tt;
                  })
                  o')
                λ u'. bind-Holds f s (keep_read 4096 marker_path t) λ o''.
                  bind-Holds f s
                    (keep_unlink marker_path t
                      (λ x h. record {
                        marked = inl refl;
                        good = h.good;
                        short_model = h.short_model;
                        short_binding = h.short_binding;
                      })
                      o'')
                    λ u''. call-Holds f s _ (λ x h. h) (λ x e h. h) t)
        (λ e. pure-Holds f s tt (λ x h. h))

  module _ (m0 : String) (b0 : Option String) (good0 : G (some m0) b0)
      (small_model : leb (lib.length_of m0) max_config ≡ true)
      (small_binding : Short lib max_binding b0) where
    abbrev pub Prepared : Files → Type 0
    Prepared = IsPrepared lib m0 b0

    abbrev pub IsAtomic : Files → Type 0
    IsAtomic x = Settled x ⊎ Prepared x

    abbrev pub Failed : Files → Type 0
    Failed x = (f ≡ true) × IsAtomic x

    abbrev pub Stopped : Files → Type 0
    Stopped x = (s ≡ true) × IsAtomic x

    check_original-Holds :
        {P : Files → Type 0} {E S : Files → Type 0} (b : Option String)
        → Holds f s P (check_original lib (is_given b) b) (λ u. P) E S
    unfolding check_original
    check_original-Holds none = pure-Holds f s tt (λ x h. h)
    check_original-Holds (some t) = pure-Holds f s tt (λ x h. h)

    stage_given-Holds :
        {P : Files → Type 0}
        → ((x : Files) → P x → IsAtomic x)
        → (b : Option String) → Holds f s P (stage_given lib b) (λ u. P) Failed Stopped
    unfolding stage_given stage
    stage_given-Holds k none = pure-Holds f s tt (λ x h. h)
    stage_given-Holds k (some t) =
        call-Holds f s _ (λ x h. h) (λ x e h. (e, k x h)) (λ x e h. (e, k x h))

    put_binding-Holds :
        {P Q : Files → Type 0}
        → ((x : Files) → P x → IsAtomic x)
        → (b : Option String) → ((x : Files) → P x → Q (set binding_path b x))
        → Holds f s P (put_binding lib (is_given b) b) (λ u. Q) Failed Stopped
    unfolding put_binding replace unlink
    put_binding-Holds k none q = call-Holds f s _ q (λ x e h. (e, k x h)) (λ x e h. (e, k x h))
    put_binding-Holds k (some t) q = call-Holds f s _ q (λ x e h. (e, k x h)) (λ x e h. (e, k x h))

    -- The copies are back in place, and the transaction is still open.
    pub restore_originals-Holds :
        Holds f s Prepared
          (restore_originals lib (is_given b0))
          (λ u x. Prepared x × (x.model ≡ some m0) × (x.bindings ≡ b0))
          Failed
          Stopped
    unfolding restore_originals given_original get set stage replace fsync_directory
    restore_originals-Holds =
        bind-Holds f s {Q = λ o x. Prepared x × (o ≡ some m0)}
          (optional-Holds f s lib.length_of max_config model_original (λ x h. (h, h.model_kept))
            fail stop (λ x t h e n. ground (arith, h.model_kept, small_model, e, n)))
          λ o. know f s λ e. rw e (
            bind-Holds f s {Q = λ o' x. Prepared x × (o' ≡ b0)}
              (optional-Holds f s lib.length_of max_binding binding_original
                (λ x h. (h, h.binding_kept)) fail stop
                (λ x t h e' n. ground (
                  arith,
                  Short-some lib max_binding b0 t small_binding (sym h.binding_kept ∙ e'),
                  n,
                )))
              λ o'. know f s λ e'. rw e' (
                bind-Holds f s (check_original-Holds b0) λ u1.
                  bind-Holds f s (call-Holds f s _ (λ x h. h) fail stop) λ u2.
                    bind-Holds f s (stage_given-Holds (λ x h. inr h) b0) λ u3.
                      bind-Holds f s {Q = λ u x. Prepared x × (x.model ≡ some m0)}
                        (call-Holds f s _ (λ x h. (kept x h, refl)) fail stop)
                        λ u4.
                          bind-Holds f s
                            {Q = λ u x. Prepared x × (x.model ≡ some m0) × (x.bindings ≡ b0)}
                            (put_binding-Holds (λ x h. inr h.0) b0
                              (λ x h. (kept' x h.0, h.1, refl)))
                            λ u5.
                              call-Holds f s _ (λ x h. h) (λ x e h. (e, inr h.0))
                                (λ x e h. (e, inr h.0))))
      where
        fail : (x : Files) → f ≡ true → Prepared x → Failed x
        fail x e h = (e, inr h)

        stop : (x : Files) → s ≡ true → Prepared x → Stopped x
        stop x e h = (e, inr h)

        kept : (x : Files) → Prepared x → Prepared (record x { model = some m0 })
        kept x h = record {
          marked = h.marked;
          model_kept = h.model_kept;
          binding_kept = h.binding_kept;
        }

        kept' : (x : Files) → Prepared x → Prepared (record x { bindings = b0 })
        kept' x h = record {
          marked = h.marked;
          model_kept = h.model_kept;
          binding_kept = h.binding_kept;
        }
