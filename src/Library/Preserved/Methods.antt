-- ===== src/Library/Preserved/Methods.antt =====
-- Every method of an activation keeps what its transactions keep.
use h2hdb_ingest.Prelude.{
  ℕ, Bool, true, false, Option, none, some, List, [], ◌∷◌, ok, ◌≡◌, same, refl, arith, inl, inr,
  ◌⊎◌, sym, subst,
}
use h2hdb_ingest.Library.Tables.{PendingRemoval}
use h2hdb_ingest.Library.State.{
  Journal, Library, Bytes, ◌>>=◌, transaction, transaction_with, CursorCodec, Phase, idle,
  open_spool, sealed, activating, ready, require_guard, require_publication_lock,
  acquire_publication_lock, check_journal, Checkpoint,
}
use h2hdb_ingest.Library.State.Keeps.{
  Keeps, Keeps-bind, Keeps-lift, Keeps-check, Keeps-pure, Keeps-lifted, Keeps-quiet,
  Keeps-transaction, Keeps-transaction_with,
}
use h2hdb_ingest.Library.Marker.{verify_marker, write_marker, remove_marker, settle_marker}
use h2hdb_ingest.Library.Spool.{Item, increasing, append_page, activate_page, seal_journal, seal}
use h2hdb_ingest.Library.Activation.{
  is_older, open_pending, begin_at, begin, complete_journal, complete_at, complete,
}
use h2hdb_ingest.Library.Install.{Disk, Install, Installed, reserve_installs, verify_installs}
use h2hdb_ingest.Library.Publish.{
  publish_page, commit_verified, install_plans, commit_installs, activate_pending,
}
use h2hdb_ingest.Library.Removal.{
  RemovalDisk, plan_removals, reserve_removals, remove_page, remove_plans, commit_removals,
  remove_stale,
}
use h2hdb_ingest.Library.Inversion.{Result-cases}
use h2hdb_ingest.Library.Reconcile.{
  start_activating, become_ready, reconcile_page, enter_phase, enter, finish_page, remove_rest,
  reconcile_rest,
}
use h2hdb_ingest.Library.Preserved.{AreFor, IsPreserved}

module _ (codec : CursorCodec) {P : Journal → Type 0} (h : IsPreserved codec P) where
  guard-Keeps : Keeps P require_guard
  guard-Keeps = Keeps-quiet (λ s. unfold require_guard in ground arith)

  lock-Keeps : Keeps P require_publication_lock
  lock-Keeps = Keeps-quiet (λ s. unfold require_publication_lock in ground arith)

  acquire-Keeps : Keeps P acquire_publication_lock
  acquire-Keeps = Keeps-quiet (λ s. unfold acquire_publication_lock in ground arith)

  pub check-Keeps : Keeps P (check_journal codec)
  check-Keeps = Keeps-quiet (λ s. unfold check_journal in refl)

  verify-Keeps : (r p : ℕ) → Keeps P (verify_marker r p)
  verify-Keeps r p = Keeps-quiet (λ s. unfold verify_marker in ground arith)

  write-Keeps : (r p : ℕ) → Keeps P (write_marker r p)
  write-Keeps r p = Keeps-quiet (λ s. unfold write_marker in ground arith)

  erase-Keeps : (r p : ℕ) → Keeps P (remove_marker r p)
  erase-Keeps r p = Keeps-quiet (λ s. unfold remove_marker in ground arith)

  settle-Keeps : (r p : ℕ) → Keeps P (settle_marker r p)
  settle-Keeps r p = Keeps-quiet (λ s. unfold settle_marker in ground arith)

  append_page-Keeps :
      (target : ℕ) (page : List Item)
      → increasing codec page ≡ true
      → Keeps P (transaction (append_page codec target page))
  append_page-Keeps target page e = Keeps-transaction (λ j j'. h.at_append target page j j' e)

  seal_journal-Keeps : (target : ℕ) → Keeps P (transaction (seal_journal codec target))
  seal_journal-Keeps target = Keeps-transaction (h.at_seal target)

  ruleset actions = (
    Keeps-bind, Keeps-lift, Keeps-check, Keeps-pure, guard-Keeps, lock-Keeps, acquire-Keeps,
    check-Keeps, verify-Keeps, write-Keeps, erase-Keeps, settle-Keeps, seal_journal-Keeps,
  )

  pub activate_page-Keeps :
      (revision : ℕ) (page : List Item) → Keeps P (activate_page codec revision page)
  unfolding activate_page
  activate_page-Keeps revision page = Keeps-bind (Keeps-lift _) λ target.
      Keeps-bind (Keeps-lift _) λ _.
        Keeps-check (increasing codec page) _ λ e.
          Keeps-bind lock-Keeps λ _. Keeps-bind check-Keeps λ _. append_page-Keeps target page e

  pub seal-Keeps : (revision : ℕ) → Keeps P (seal codec revision)
  unfolding seal
  seal-Keeps revision = search actions depth 16

  begin_at-cases :
      (target receipt : ℕ) (s : Library)
      → let j = (begin_at codec target receipt s).1.journal in
        (j ≡ s.journal)
        ⊎ ((is_older target s.current_revision ≡ false)
            × (same s.current_revision (some target) ≡ false)
            × (open_pending target receipt s.journal ≡ ok j))
  unfolding begin_at ◌>>=◌ transaction settle_marker open_pending
  begin_at-cases target receipt s = ground arith

  begin_at-Keeps : (target receipt : ℕ) → Keeps P (begin_at codec target receipt)
  begin_at-Keeps target receipt = record {
    at = λ s p. elim (begin_at-cases target receipt s) [
      | inl e ↦ subst P (sym e) p
      | inr (older, new, e) ↦ h.at_open target receipt s.journal _ older new p e
    ];
  }

  complete_at-cases :
      (target receipt : ℕ) (s : Library)
      → let j = (complete_at codec target receipt s).1.journal in
        (j ≡ s.journal) ⊎ (complete_journal codec target receipt s.journal ≡ ok j)
  unfolding complete_at ◌>>=◌ transaction settle_marker verify_marker remove_marker complete_journal
  complete_at-cases target receipt s = ground arith

  complete_at-Keeps : (target receipt : ℕ) → Keeps P (complete_at codec target receipt)
  complete_at-Keeps target receipt = record {
    at = λ s p. elim (complete_at-cases target receipt s) [
      | inl e ↦ subst P (sym e) p
      | inr e ↦ h.at_complete target receipt s.journal _ p e
    ];
  }

  pub begin-Keeps : (revision : ℕ) (b : Bytes) → Keeps P (begin codec revision b)
  unfolding begin
  begin-Keeps revision b = search (actions, begin_at-Keeps) depth 16

  pub complete-Keeps : (revision : ℕ) (b : Bytes) → Keeps P (complete codec revision b)
  unfolding complete
  complete-Keeps revision b = search (actions, complete_at-Keeps) depth 16

  -- reconcile_page
  start-Keeps : (target : ℕ) → Keeps P (transaction (start_activating target))
  start-Keeps target = Keeps-transaction (h.at_start target)

  reserve-Keeps :
      (target receipt limit : ℕ)
      → Keeps P (transaction_with (reserve_installs codec target receipt limit))
  reserve-Keeps target receipt limit = Keeps-transaction_with (h.at_reserve target receipt limit)

  publish-Keeps :
      (target receipt : ℕ) (o : Installed) (os : List Installed)
      → AreFor target (o ∷ os)
      → Keeps P (transaction (publish_page codec target receipt o os))
  publish-Keeps target receipt o os a =
      Keeps-transaction (λ j j'. h.at_publish target receipt o os j j' a)

  plan-Keeps :
      (target receipt limit : ℕ) → Keeps P (transaction (plan_removals codec target receipt limit))
  plan-Keeps target receipt limit = Keeps-transaction (h.at_plan target receipt limit)

  authorize-Keeps :
      (target receipt limit : ℕ)
      → Keeps P (transaction_with (reserve_removals codec target receipt limit))
  authorize-Keeps target receipt limit =
      Keeps-transaction_with (h.at_authorize target receipt limit)

  remove-Keeps :
      (target receipt : ℕ) (p : PendingRemoval) (ps : List PendingRemoval)
      → Keeps P (transaction (remove_page codec target receipt p ps))
  remove-Keeps target receipt p ps = Keeps-transaction (h.at_remove target receipt p ps)

  ready-Keeps : (target receipt : ℕ) → Keeps P (transaction (become_ready codec target receipt))
  ready-Keeps target receipt = Keeps-transaction (h.at_ready target receipt)

  ruleset transactions =
      (actions, start-Keeps, reserve-Keeps, plan-Keeps, authorize-Keeps, remove-Keeps, ready-Keeps)

  phase-Keeps : (r p : ℕ) (phase : Phase) → Keeps P (enter_phase r p phase)
  unfolding enter_phase
  phase-Keeps r p ready = search transactions depth 12
  phase-Keeps r p sealed = search transactions depth 12
  phase-Keeps r p activating = search transactions depth 12
  phase-Keeps r p open_spool = search transactions depth 12
  phase-Keeps r p idle = search transactions depth 12

  enter-cases :
      (r p : ℕ) (s : Library)
      → (enter r p s ≡ enter_phase r p s.phase s) ⊎ ((enter r p s).1.journal ≡ s.journal)
  unfolding enter
  enter-cases r p s = ground arith

  enter-Keeps : (r p : ℕ) → Keeps P (enter r p)
  enter-Keeps r p = record {
    at = λ s k. elim (enter-cases r p s) [
      | inl e ↦ rw e ((phase-Keeps r p s.phase).at s k)
      | inr e ↦ subst P (sym e) k
    ];
  }

  verified-Keeps :
      (r p : ℕ) (os : List Installed) → AreFor r os → Keeps P (commit_verified codec r p os)
  unfolding commit_verified
  verified-Keeps r p [] a = Keeps-lift _
  verified-Keeps r p (o ∷ os) a = Keeps-bind (publish-Keeps r p o os a) (λ _. Keeps-pure _)

  verify_installs-AreFor :
      (disk : Disk) (r p : ℕ) (os vs : List Installed)
      → verify_installs disk r p os ≡ ok vs
      → AreFor r vs
  unfolding verify_installs
  verify_installs-AreFor disk r p [] vs e = let same : vs ≡ [] = ground arith in rw same tt
  verify_installs-AreFor disk r p (o ∷ os) vs e =
      elim (Result-cases
        (disk.require_current o.plan.artifact.key o.plan.artifact.size_bytes o.identity)) [
          | inr (y, s) ↦ absurd (ground arith)
          | inl (i, s) ↦ elim (Result-cases (verify_installs disk r p os)) [
            | inr (y, t) ↦ absurd (ground arith)
            | inl (rest, t) ↦
                let same : vs ≡ (record o { identity = i } ∷ rest) = ground arith in
                rw same (ground arith, verify_installs-AreFor disk r p os rest t)
          ]
        ]

  commit-Keeps :
      (disk : Disk) (r p : ℕ) (os : List Installed) → Keeps P (commit_installs codec disk r p os)
  unfolding commit_installs
  commit-Keeps disk r p os = Keeps-bind lock-Keeps λ _. Keeps-bind (Keeps-lift _) λ _.
      Keeps-lifted (verify_installs disk r p os)
        λ vs e. verified-Keeps r p vs (verify_installs-AreFor disk r p os vs e)

  installs-Keeps :
      (disk : Disk) (r p : ℕ) (plans : List Install) → Keeps P (install_plans codec disk r p plans)
  unfolding install_plans
  installs-Keeps disk r p [] = Keeps-pure _
  installs-Keeps disk r p (o ∷ os) = search (transactions, commit-Keeps) depth 16

  activate-Keeps : (disk : Disk) (r p limit : ℕ) → Keeps P (activate_pending codec disk r p limit)
  unfolding activate_pending
  activate-Keeps disk r p limit = search (transactions, installs-Keeps) depth 12

  removals-Keeps :
      (disk : RemovalDisk) (r p : ℕ) (plans : List PendingRemoval)
      → Keeps P (remove_plans codec disk r p plans)
  unfolding remove_plans commit_removals
  removals-Keeps disk r p [] = Keeps-pure _
  removals-Keeps disk r p (o ∷ os) = search transactions depth 16

  stale-Keeps : (disk : RemovalDisk) (r p limit : ℕ) → Keeps P (remove_stale codec disk r p limit)
  unfolding remove_stale
  stale-Keeps disk r p limit = search (transactions, removals-Keeps) depth 12

  module _ (disk : Disk) (removals : RemovalDisk) where
    finish-Keeps :
        (r p : ℕ) (o : Option Checkpoint) → Keeps P (finish_page codec disk removals r p o)
    unfolding finish_page
    finish-Keeps r p none = search transactions depth 12
    finish-Keeps r p (some c) = Keeps-pure _

    rest-Keeps :
        (r p limit : ℕ) (o : Option Checkpoint)
        → Keeps P (remove_rest codec disk removals r p limit o)
    unfolding remove_rest
    rest-Keeps r p limit none = search (transactions, stale-Keeps, finish-Keeps) depth 12
    rest-Keeps r p limit (some c) = Keeps-pure _

    work-Keeps :
        (r p limit : ℕ) (is_done : Bool)
        → Keeps P (reconcile_rest codec disk removals r p limit is_done)
    unfolding reconcile_rest
    work-Keeps r p limit true = Keeps-pure _
    work-Keeps r p limit false = search (transactions, activate-Keeps, rest-Keeps) depth 12

    pub reconcile_page-Keeps :
        (revision : ℕ) (b : Bytes) (limit : ℕ)
        → Keeps P (reconcile_page codec disk removals revision b limit)
    unfolding reconcile_page
    reconcile_page-Keeps revision b limit = search (transactions, enter-Keeps, work-Keeps) depth 18
