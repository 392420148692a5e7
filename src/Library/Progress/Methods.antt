-- ===== src/Library/Progress/Methods.antt =====
-- A call of `reconcile_page` that returns has made progress.
use h2hdb_ingest.Prelude.{
  ℕ, ◌≡◌, ◌<◌, Bool, true, false, Option, none, some, List, [], ◌∷◌, arith, refl, Result, ok, err,
  inl, inr, ◌⊎◌, subst, sym,
}
use h2hdb_ingest.Library.Tables.{PendingRemoval}
use h2hdb_ingest.Library.State.{
  Journal, Library, Bytes, CursorCodec, Phase, idle, open_spool, sealed, activating, ready,
  require_publication_lock, check_journal, Checkpoint, Error,
}
use h2hdb_ingest.Library.State.Yields.{
  Holds, Yields, Yields-bind, Yields-lift, Yields-pure, Yields-quiet, Yields-transaction,
  Yields-transaction_with,
}
use h2hdb_ingest.Library.Marker.{verify_marker, write_marker}
use h2hdb_ingest.Library.Install.{Disk, Install, Installed}
use h2hdb_ingest.Library.Publish.{commit_verified, install_plans, commit_installs, activate_pending}
use h2hdb_ingest.Library.Removal.{RemovalDisk, remove_plans, commit_removals, remove_stale}
use h2hdb_ingest.Library.Reconcile.{
  reconcile_page, enter_phase, enter, finish_page, remove_rest, reconcile_rest,
}
use h2hdb_ingest.Library.Progress.Counts.{work}
use h2hdb_ingest.Library.Progress.Pages.{
  AtMost, IsLess, IsAdvanced, Advanced, start-work, reserve-work, publish-work, remove-work,
  plan-work, authorize-work, ready-phase,
}

module _ (codec : CursorCodec) (w : ℕ) where
  lock-Yields : Yields (AtMost w) (λ _. AtMost w) require_publication_lock
  lock-Yields = Yields-quiet (λ s. unfold require_publication_lock in ground arith)

  check-Yields : Yields (AtMost w) (λ _. AtMost w) (check_journal codec)
  check-Yields = Yields-quiet (λ s. unfold check_journal in refl)

  module _ (r q : ℕ) where
    abbrev Done : Bool → Journal → Type 0
    Done true j = j.phase ≡ ready
    Done false j = AtMost w j

    -- the journal, and the phase that was read from it
    abbrev InPhase : Phase → Journal → Type 0
    InPhase phase j = AtMost w j × (j.phase ≡ phase)

    phase-Yields : (phase : Phase) → Yields (InPhase phase) Done (enter_phase r q phase)
    unfolding enter_phase
    phase-Yields ready =
        Yields-bind (Yields-quiet (λ s. unfold verify_marker in ground arith))
          (λ _. Yields-pure true (λ j p. p.1))
    phase-Yields sealed =
        Yields-bind (Yields-quiet (λ s. unfold write_marker in ground arith)) (λ _.
          Yields-bind {R = λ _. AtMost w}
            (Yields-transaction (λ j j' p e. start-work r w j j' p.0 e))
            (λ _. Yields-pure false (λ j p. p)))
    phase-Yields activating =
        Yields-bind (Yields-quiet (λ s. unfold verify_marker in ground arith))
          (λ _. Yields-pure false (λ j p. p.0))
    phase-Yields open_spool = record { at = λ s p. tt }
    phase-Yields idle = record { at = λ s p. tt }

    enter-cases :
        (s : Library)
        → (enter r q s ≡ enter_phase r q s.phase s)
          ⊎ ((enter r q s).0 ≡ err Error.not_ready_to_reconcile)
    unfolding enter
    enter-cases s = ground arith

    raised-Holds :
        {A : Type 0} (Q : A → Journal → Type 0) (o : Result Error A × Library) (x : Error)
        → o.0 ≡ err x
        → Holds Q o
    raised-Holds Q (ok a, s) x e = absurd (ground arith)
    raised-Holds Q (err y, s) x e = tt

    enter-Yields : Yields (AtMost w) Done (enter r q)
    enter-Yields = record {
      at = λ s p. elim (enter-cases s) [
        | inl e ↦ subst (Holds Done) (sym e) ((phase-Yields s.phase).at s (p, refl))
        | inr e ↦ raised-Holds Done (enter r q s) Error.not_ready_to_reconcile e
      ];
    }

    verified-Yields :
        (os : List Installed) → Yields (AtMost w) (IsLess w) (commit_verified codec r q os)
    unfolding commit_verified
    verified-Yields [] = record { at = λ s p. tt }
    verified-Yields (o ∷ os) =
        Yields-bind {R = λ _ j. work j < w} (Yields-transaction (publish-work codec r q w o os))
          (λ _. Yields-pure _ (λ j p. (refl, p)))

    commit-Yields :
        (disk : Disk) (os : List Installed)
        → Yields (AtMost w) (IsLess w) (commit_installs codec disk r q os)
    unfolding commit_installs
    commit-Yields disk os =
        Yields-bind lock-Yields
          λ _. Yields-bind (Yields-lift _) λ _. Yields-bind (Yields-lift _) λ vs. verified-Yields vs

    installs-Yields :
        (disk : Disk) (plans : List Install)
        → Yields (AtMost w) (Advanced w) (install_plans codec disk r q plans)
    unfolding install_plans
    installs-Yields disk [] = Yields-pure _ (λ j p. p)
    installs-Yields disk (o ∷ os) =
        Yields-bind (Yields-lift _)
          λ outcomes. Yields-bind (commit-Yields disk outcomes) λ c. Yields-pure _ (λ j p. p)

    activate-Yields :
        (disk : Disk) (limit : ℕ)
        → Yields (AtMost w) (Advanced w) (activate_pending codec disk r q limit)
    unfolding activate_pending
    activate-Yields disk limit =
        Yields-bind {R = λ _. AtMost w} (Yields-transaction_with (reserve-work codec r q w limit))
          (λ plans. installs-Yields disk plans)

    commit_removals-Yields :
        (disk : RemovalDisk) (p : PendingRemoval) (ps : List PendingRemoval)
        → Yields (AtMost w) (IsLess w) (commit_removals codec disk r q p ps)
    unfolding commit_removals
    commit_removals-Yields disk p ps = Yields-bind lock-Yields λ _. Yields-bind (Yields-lift _) λ _.
        Yields-bind (Yields-lift _) λ _.
          Yields-bind {R = λ _ j. work j < w} (Yields-transaction (remove-work codec r q w p ps))
            (λ _. Yields-pure _ (λ j h. (refl, h)))

    removals-Yields :
        (disk : RemovalDisk) (plans : List PendingRemoval)
        → Yields (AtMost w) (Advanced w) (remove_plans codec disk r q plans)
    unfolding remove_plans
    removals-Yields disk [] = Yields-pure _ (λ j p. p)
    removals-Yields disk (p ∷ ps) =
        Yields-bind (Yields-lift _)
          λ _. Yields-bind (commit_removals-Yields disk p ps) λ c. Yields-pure _ (λ j h. h)

    stale-Yields :
        (disk : RemovalDisk) (limit : ℕ)
        → Yields (AtMost w) (Advanced w) (remove_stale codec disk r q limit)
    unfolding remove_stale
    stale-Yields disk limit =
        Yields-bind {R = λ _. AtMost w} (Yields-transaction_with (authorize-work codec r q w limit))
          (λ plans. removals-Yields disk plans)

    module _ (disk : Disk) (removals : RemovalDisk) where
      finish-Yields :
          (o : Option Checkpoint)
          → Yields (Advanced w o) (IsAdvanced w) (finish_page codec disk removals r q o)
      unfolding finish_page
      finish-Yields (some c) = Yields-pure c (λ j p. inr p)
      finish-Yields none =
          Yields-bind {R = λ _ j. j.phase ≡ ready} (Yields-transaction (ready-phase codec r q w))
            (λ _. Yields-pure _ (λ j p. inl (refl, p)))

      rest-Yields :
          (limit : ℕ) (o : Option Checkpoint)
          → Yields (Advanced w o) (IsAdvanced w) (remove_rest codec disk removals r q limit o)
      unfolding remove_rest
      rest-Yields limit (some c) = Yields-pure c (λ j p. inr p)
      rest-Yields limit none =
          Yields-bind {R = λ _. AtMost w} (Yields-transaction (plan-work codec r q w limit))
            (λ _. Yields-bind (stale-Yields removals limit) finish-Yields)

      work-Yields :
          (limit : ℕ) (is_done : Bool)
          → Yields
              (Done is_done)
              (IsAdvanced w)
              (reconcile_rest codec disk removals r q limit is_done)
      unfolding reconcile_rest
      work-Yields limit true = Yields-pure _ (λ j p. inl (refl, p))
      work-Yields limit false = Yields-bind (activate-Yields disk limit) (rest-Yields limit)

  pub reconcile_page-Yields :
      (disk : Disk) (removals : RemovalDisk) (revision : ℕ) (b : Bytes) (limit : ℕ)
      → Yields (AtMost w) (IsAdvanced w) (reconcile_page codec disk removals revision b limit)
  unfolding reconcile_page
  reconcile_page-Yields disk removals revision b limit = Yields-bind (Yields-lift _) λ target.
      Yields-bind (Yields-lift _) λ receipt. Yields-bind (Yields-lift _) λ _.
        Yields-bind lock-Yields λ _. Yields-bind check-Yields λ _.
          Yields-bind (enter-Yields target receipt) (work-Yields target receipt disk removals limit)
