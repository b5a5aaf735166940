-- ===== src/StackStore/Recovery/Finished.antt =====
-- A recovery, whatever becomes of its calls: the two files are never mixed, and where it returns, no
-- transaction is open.
use orichum.Base.{
  String, Bool, true, false, Option, none, some, List, [], ◌∷◌, ◌≡◌, ◌⊎◌, inl, inr, refl, sym,
  subst, arith, leb,
}
use orichum.StackBindings.{Library}
use orichum.StackStore.Disk.{
  is_given, model_original, binding_original, marker_path, Files, get, set, replace, stage,
  fsync_directory, replace_private_file, pure, World, Exit, returned, raised, stopped, Outcome,
  done, fails, stops,
}
use orichum.StackStore.Disk.Rules.{Runs, Ends, Holds, call-Holds, pure-Holds, bind-Holds, know}
use orichum.StackStore.Recovery.{
  Phase, pending, committed, TransactionState, marker_payload, write_transaction_marker, marker_of,
  load_transaction_marker, finish_recovery, discard_copies, discard_first, restore, resume,
  recover_transaction, max_config, max_binding,
}
use orichum.StackStore.Recovery.Atomic.{
  MarkerLaws, parse_marker-json, Short, Short-some, IsSettled, IsPrepared, optional-Holds,
  cleanup-Holds, restore_originals-Holds,
}

pub Short-config :
    (lib : Library) (o : Option String) → Short lib max_binding o → Short lib max_config o
Short-config lib none h = tt
Short-config lib (some t) h = ground (arith, h)

module _ (f s : Bool) (lib : Library) (laws : MarkerLaws lib)
    (G : Option String → Option String → Type 0) (m0 : String) (b0 : Option String)
    (good0 : G (some m0) b0) (small_model : leb (lib.length_of m0) max_config ≡ true)
    (small_binding : Short lib max_binding b0) where
  abbrev Settled : Files → Type 0
  Settled = IsSettled lib G

  abbrev Prepared : Files → Type 0
  Prepared = IsPrepared lib m0 b0

  abbrev IsAtomic : Files → Type 0
  IsAtomic x = Settled x ⊎ Prepared x

  abbrev Failed : Files → Type 0
  Failed x = (f ≡ true) × IsAtomic x

  abbrev Stopped : Files → Type 0
  Stopped x = (s ≡ true) × IsAtomic x

  abbrev Restored : Files → Type 0
  Restored x = Prepared x × (x.model ≡ some m0) × (x.bindings ≡ b0)

  commit_marker :
      (e : Bool) (x : Files)
      → Restored x
      → Settled (record x { marker = some (marker_payload lib committed e) })
  commit_marker e x h = record {
    marked = inr (e, refl);
    good = subst (λ m. G m x.bindings) (sym h.1) (subst (G (some m0)) (sym h.2) good0);
    short_model = subst (Short lib max_config) (sym h.0.model_kept) small_model;
    short_binding =
        subst (Short lib max_config) (sym h.0.binding_kept) (Short-config lib b0 small_binding);
  }

  finish_recovery-Holds :
      (e : Bool) → Holds f s Restored (finish_recovery lib e) (λ u. Settled) Failed Stopped
  unfolding finish_recovery write_transaction_marker replace_private_file stage replace set
      fsync_directory
  finish_recovery-Holds e =
      bind-Holds f s {Q = λ u. Settled}
        (bind-Holds f s
          (call-Holds f s _ (λ x h. h) (λ x t h. (t, inr h.0)) (λ x t h. (t, inr h.0)))
          λ u1. call-Holds f s _ (commit_marker e) (λ x t h. (t, inr h.0)) (λ x t h. (t, inr h.0)))
        λ u2.
          bind-Holds f s (call-Holds f s _ (λ x h. h) (λ x t h. (t, inl h)) (λ x t h. (t, inl h)))
            λ u3. cleanup-Holds f s lib laws G (λ x t h. (t, inl h))

  -- What a marker that is read says of the files.
  abbrev Means : Phase → Bool → Files → Type 0
  Means pending e x = Prepared x × (e ≡ is_given b0)
  Means committed e x = Settled x

  abbrev Says : Option TransactionState → Files → Type 0
  Says none x = Settled x
  Says (some r) x = Means r.state r.binding_existed x

  marker_of-payload :
      (p : Phase) (e : Bool)
      → marker_of lib (some (marker_payload lib p e))
        ≡ pure (some (record { state = p; binding_existed = e }))
  unfolding marker_of
  marker_of-payload p e = rw (laws.reads p e, marker_of) (rw (parse_marker-json p e) refl)

  marker_of-Holds :
      (o : Option String)
      → Holds f s (λ x. IsAtomic x × (x.marker ≡ o)) (marker_of lib o) Says Failed Stopped
  unfolding marker_of
  marker_of-Holds none = pure-Holds f s none (λ x h. elim h.0 [
    | inl settled ↦ settled
    | inr prepared ↦ let q = prepared.marked in let r = h.1 in cc
  ])
  marker_of-Holds (some text) = record {
    run = λ w r p. elim p.0 [
      | inl settled ↦ elim settled.marked [
        | inl no_marker ↦ let q = p.1 in cc
        | inr (e, q) ↦
            let m = p.1 in
            let t : text ≡ marker_payload lib committed e = cc in
            rw (t, marker_of-payload committed e) (r, settled)
      ]
      | inr prepared ↦
          let m = p.1 in
          let q = prepared.marked in
          let t : text ≡ marker_payload lib pending (is_given b0) = cc in
          rw (t, marker_of-payload pending (is_given b0)) (r, (prepared, refl))
    ];
  }

  load_transaction_marker-Holds :
      Holds f s IsAtomic (load_transaction_marker lib) Says Failed Stopped
  unfolding load_transaction_marker get
  load_transaction_marker-Holds =
      bind-Holds f s {Q = λ o x. IsAtomic x × (x.marker ≡ o)}
        (optional-Holds f s lib.length_of 4096 marker_path (λ x h. (h, refl)) (λ x t h. (t, h))
          (λ x t h. (t, h)) large)
        marker_of-Holds
    where
      large :
          (x : Files) (t : String)
          → IsAtomic x
          → x.marker ≡ some t
          → leb (lib.length_of t) 4096 ≡ false
          → Failed x
      large x t (inl settled) q n = elim settled.marked [
        | inl no_marker ↦ cc
        | inr (e, m) ↦
            let same : t ≡ marker_payload lib committed e = cc in
            ground (arith, laws.small committed e, same, n)
      ]
      large x t (inr prepared) q n =
          let m = prepared.marked in
          let same : t ≡ marker_payload lib pending (is_given b0) = cc in
          ground (arith, laws.small pending (is_given b0), same, n)

  restore-Holds :
      (p : Phase) (e : Bool) → Holds f s (Means p e) (restore lib p e) (λ u. Settled) Failed Stopped
  unfolding restore
  restore-Holds pending e = know f s λ q. rw q (
      bind-Holds f s (restore_originals-Holds f s lib laws G m0 b0 good0 small_model small_binding)
        λ u. finish_recovery-Holds (is_given b0))
  restore-Holds committed e = cleanup-Holds f s lib laws G (λ x t h. (t, inl h))

  discard-Holds :
      (o : Option String) → Holds f s Settled (discard_copies lib o) (λ u. Settled) Failed Stopped
  unfolding discard_copies
  discard-Holds none = pure-Holds f s tt (λ x h. h)
  discard-Holds (some t) = cleanup-Holds f s lib laws G (λ x t h. (t, inl h))

  resume-Holds :
      (o : Option TransactionState)
      → Holds f s (Says o) (resume lib o) (λ u. Settled) Failed Stopped
  unfolding resume discard_first get
  resume-Holds none =
      bind-Holds f s {Q = λ o. Settled}
        (optional-Holds f s lib.length_of max_config model_original (λ x h. h) (λ x t h. (t, inl h))
          (λ x t h. (t, inl h))
          (λ x t h q n.
            let k = Short-some lib max_config x.model_copy t h.short_model q in
            ground (arith, k, n)))
        first
    where
      first :
          (o : Option String)
          → Holds f s Settled (discard_first lib o) (λ u. Settled) Failed Stopped
      first none =
          bind-Holds f s {Q = λ o. Settled}
            (optional-Holds f s lib.length_of max_config binding_original (λ x h. h)
              (λ x t h. (t, inl h)) (λ x t h. (t, inl h))
              (λ x t h q n.
                let k = Short-some lib max_config x.binding_copy t h.short_binding q in
                ground (arith, k, n)))
            discard-Holds
      first (some t) = cleanup-Holds f s lib laws G (λ x t h. (t, inl h))
  resume-Holds (some marker) = restore-Holds marker.state marker.binding_existed

  pub recover_transaction-Holds :
      Holds f s IsAtomic (recover_transaction lib) (λ u. Settled) Failed Stopped
  unfolding recover_transaction
  recover_transaction-Holds = bind-Holds f s load_transaction_marker-Holds resume-Holds

  files_of-Ends :
      (x : Exit (Unit {0}) × World) → Ends f s (λ u. Settled) Failed Stopped x → IsAtomic x.1.files
  files_of-Ends (returned u, w) h = inl h.1
  files_of-Ends (raised e, w) h = h.1.1
  files_of-Ends (stopped, w) h = h.1

  pub recover_transaction-IsAtomic_of :
      (w : World)
      → Runs f s w.outcomes
      → IsAtomic w.files
      → IsAtomic (recover_transaction lib w).1.files
  recover_transaction-IsAtomic_of w r h =
      files_of-Ends (recover_transaction lib w) (recover_transaction-Holds.run w r h)

pub Runs-any : (os : List Outcome) → Runs true true os
Runs-any [] = tt
Runs-any (done ∷ os) = Runs-any os
Runs-any (fails ∷ os) = (refl, Runs-any os)
Runs-any (stops ∷ os) = (refl, Runs-any os)

module _ (lib : Library) (laws : MarkerLaws lib) (G : Option String → Option String → Type 0)
    (m0 : String) (b0 : Option String) (good0 : G (some m0) b0)
    (small_model : leb (lib.length_of m0) max_config ≡ true)
    (small_binding : Short lib max_binding b0) where
  -- However the calls of a recovery come out, and wherever it is stopped, the next recovery starts from
  -- the same: files that are good and no open transaction, or an open one with copies of good files.
  pub recover_transaction-IsAtomic :
      (w : World)
      → IsSettled lib G w.files ⊎ IsPrepared lib m0 b0 w.files
      → IsSettled lib G (recover_transaction lib w).1.files
        ⊎ IsPrepared lib m0 b0 (recover_transaction lib w).1.files
  recover_transaction-IsAtomic w h =
      recover_transaction-IsAtomic_of true true lib laws G m0 b0 good0 small_model small_binding w
        (Runs-any w.outcomes) h

  finished :
      (x : Exit (Unit {0}) × World)
      → Ends false false
          (λ u. IsSettled lib G)
          (λ y. (◌≡◌ {A = Bool} false true) × (IsSettled lib G y ⊎ IsPrepared lib m0 b0 y))
          (λ y. (◌≡◌ {A = Bool} false true) × (IsSettled lib G y ⊎ IsPrepared lib m0 b0 y))
          x
      → (w : World) × (x ≡ (returned tt, w)) × IsSettled lib G w.files
  finished (returned tt, w) h = (w, refl, h.1)
  finished (raised e, w) h = let n = h.1.0 in cc
  finished (stopped, w) h = let n = h.0 in cc

  -- A recovery whose calls are all done returns, and leaves good files and no open transaction.
  pub recover_transaction-returns :
      (x : Files)
      → IsSettled lib G x ⊎ IsPrepared lib m0 b0 x
      → (w : World) × (recover_transaction lib (record { files = x; outcomes = [] })
          ≡ (returned tt, w))
        × IsSettled lib G w.files
  recover_transaction-returns x h =
      finished (recover_transaction lib (record { files = x; outcomes = [] })) (
        (recover_transaction-Holds false false lib laws G m0 b0 good0 small_model small_binding).run
          (record { files = x; outcomes = [] }) tt h)
