-- ===== src/Library/Reconcile.antt =====
-- `reconcile_page` of library.py: one bounded page of an activation's work.
use h2hdb_ingest.Prelude.{
  ℕ, Bool, true, false, not, ◌&&◌, Option, none, some, List, [], ◌∷◌, Result, ok, err, leb,
  if◌then◌else◌, same,
}
use h2hdb_ingest.Library.Tables.{unactivated, stale, removals_of}
use h2hdb_ingest.Library.State.{
  Error, Phase, idle, open_spool, sealed, activating, ready, Journal, Bytes, Exec, pure, lift,
  ◌>>=◌, ◌>>◌, transaction, require_publication_lock, CursorCodec, Checkpoint, ready_status,
  journal_state, check_journal,
}
use h2hdb_ingest.Library.Marker.{
  max_page_items, revision_of, receipt_of, verify_marker, write_marker,
}
use h2hdb_ingest.Library.Install.{Disk, is_reconciling}
use h2hdb_ingest.Library.Publish.{activate_pending}
use h2hdb_ingest.Library.Removal.{RemovalDisk, plan_removals, remove_stale}

abbrev is_empty {ℓ} : {A : Type ℓ} → List A → Bool
is_empty [] = true
is_empty (_ ∷ _) = false

abbrev is_sealed : Phase → Bool
is_sealed sealed = true
is_sealed _ = false

-- UPDATE library_state SET phase = 'ACTIVATING' WHERE pending_revision = ? AND phase = 'SEALED'
unfoldable pub start_activating : ℕ → Journal → Result Error Journal
start_activating revision j =
    if same j.pending_revision (some revision) && is_sealed j.phase
    then ok (record j { phase = activating; last_cursor = none })
    else err Error.state_changed

-- the last transaction: nothing is left to install, to remove or to select
unfoldable pub become_ready : CursorCodec → ℕ → ℕ → Journal → Result Error Journal
become_ready codec revision receipt j = elim (journal_state codec j) [
  | err e ↦ err e
  | ok _ ↦
      if not (is_reconciling revision receipt j)
      then err Error.changed_after_removal
      else if is_empty (unactivated revision j.pending_entries)
          && (is_empty (removals_of revision j.pending_removals)
              && is_empty (stale revision j.pending_entries j.current_entries))
      then ok (record j { phase = ready; last_cursor = none })
      else err Error.no_progress
]

abbrev pub ready_checkpoint : ℕ → ℕ → Checkpoint
ready_checkpoint revision receipt = record {
  revision = revision;
  receipt = receipt;
  status = ready_status;
  cursor = none;
}

-- the match on the phase: whether the activation is ready already
unfoldable pub enter_phase : ℕ → ℕ → Phase → Exec Bool
enter_phase revision receipt ready = do verify_marker revision receipt; pure true
enter_phase revision receipt sealed = do
  write_marker revision receipt
  transaction (start_activating revision)
  pure false
enter_phase revision receipt activating = do verify_marker revision receipt; pure false
enter_phase revision receipt open_spool = lift (err Error.not_ready_to_reconcile)
enter_phase revision receipt idle = lift (err Error.not_ready_to_reconcile)

unfoldable pub enter : ℕ → ℕ → Exec Bool
enter revision receipt s =
    if same s.pending_revision (some revision) && same s.pending_receipt (some receipt)
    then enter_phase revision receipt s.phase s
    else (err Error.not_ready_to_reconcile, s)

module _ (codec : CursorCodec) (disk : Disk) (removals : RemovalDisk) where
  unfoldable pub finish_page : ℕ → ℕ → Option Checkpoint → Exec Checkpoint
  finish_page revision receipt (some c) = pure c
  finish_page revision receipt none = do
    transaction (become_ready codec revision receipt)
    pure (ready_checkpoint revision receipt)

  unfoldable pub remove_rest : ℕ → ℕ → ℕ → Option Checkpoint → Exec Checkpoint
  remove_rest revision receipt limit (some c) = pure c
  remove_rest revision receipt limit none = do
    transaction (plan_removals codec revision receipt limit)
    removed ← remove_stale codec removals revision receipt limit
    finish_page revision receipt removed

  unfoldable pub reconcile_rest : ℕ → ℕ → ℕ → Bool → Exec Checkpoint
  reconcile_rest revision receipt limit true = pure (ready_checkpoint revision receipt)
  reconcile_rest revision receipt limit false = do
    installed ← activate_pending codec disk revision receipt limit
    remove_rest revision receipt limit installed

  unfoldable pub reconcile_page : ℕ → Bytes → ℕ → Exec Checkpoint
  reconcile_page revision receipt_id limit = do
    target ← lift (revision_of revision)
    receipt ← lift (receipt_of receipt_id)
    lift (if leb 1 limit && leb limit max_page_items then ok tt else err Error.bad_limit)
    require_publication_lock
    check_journal codec
    is_done ← enter target receipt
    reconcile_rest target receipt limit is_done
