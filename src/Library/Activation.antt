-- ===== src/Library/Activation.antt =====
-- `begin` and `complete` of library.py: an activation takes the journal from one catalog revision
-- to the next.
use h2hdb_ingest.Prelude.{
  ℕ, Bool, true, false, not, ◌&&◌, Option, none, some, Result, ok, err, ltb, ◌==◌, if◌then◌else◌,
  is_some, same,
}
use h2hdb_ingest.Library.State.{
  Error, Phase, idle, open_spool, Journal, Bytes, Exec, pure, lift, ◌>>=◌, ◌>>◌, transaction,
  require_guard, require_publication_lock, acquire_publication_lock, CursorCodec, Checkpoint,
  complete_status, spool, is_ready, check_journal, checkpoint,
}
use h2hdb_ingest.Library.Marker.{
  revision_of, receipt_of, is_present, is_marker_of, verify_marker, remove_marker, settle_marker,
}

abbrev pub is_past_open : Phase → Bool
is_past_open open_spool = false
is_past_open idle = false
is_past_open _ = true

abbrev pub is_older : ℕ → Option ℕ → Bool
is_older target none = false
is_older target (some current) = ltb target current

-- UPDATE library_state SET pending_revision = ?, ..., phase = 'OPEN' WHERE pending_revision IS NULL
unfoldable pub open_pending : ℕ → ℕ → Journal → Result Error Journal
open_pending target receipt j =
    if is_some j.pending_revision
    then err Error.state_changed
    else ok (record j {
      pending_revision = some target;
      pending_receipt = some receipt;
      phase = open_spool;
      last_cursor = none;
    })

module _ (codec : CursorCodec) where
  unfoldable pub begin_at : ℕ → ℕ → Exec Checkpoint
  begin_at target receipt s =
      if is_older target s.current_revision
      then (err Error.older_revision, s)
      else elim s.pending_revision [
        | some pending ↦
            if not (pending == target)
            then (err Error.another_unfinished, s)
            else if not (same s.pending_receipt (some receipt))
            then (err Error.other_pending_receipt, s)
            else if is_past_open s.phase
                && (is_present s.marker && not (is_marker_of target receipt s.marker))
            then (err Error.foreign_marker, s)
            else (checkpoint codec s.journal, s)
        | none ↦
            if same s.current_revision (some target)
            then (if not (same s.current_receipt (some receipt))
                then (err Error.other_installed_receipt, s)
                else (do
                  settle_marker target receipt
                  pure (record {
                    revision = target;
                    receipt = receipt;
                    status = complete_status;
                    cursor = none;
                  }))
                    s)
            else if is_present s.marker
            then (err Error.orphaned_marker, s)
            else (do
              transaction (open_pending target receipt)
              pure (record { revision = target; receipt = receipt; status = spool; cursor = none }))
                s
      ]

  unfoldable pub begin : ℕ → Bytes → Exec Checkpoint
  begin revision receipt_id = do
    target ← lift (revision_of revision)
    receipt ← lift (receipt_of receipt_id)
    require_guard
    acquire_publication_lock
    check_journal codec
    begin_at target receipt

  unfoldable pub complete_journal : ℕ → ℕ → Journal → Result Error Journal
  complete_journal target receipt j =
      if same j.pending_revision (some target)
        && (same j.pending_receipt (some receipt) && is_ready j.phase)
      then ok (record j {
        current_revision = some target;
        current_receipt = some receipt;
        pending_revision = none;
        pending_receipt = none;
        phase = idle;
        last_cursor = none;
      })
      else err Error.not_ready_for_completion

  unfoldable pub complete_at : ℕ → ℕ → Exec (Unit {0})
  complete_at target receipt s =
      if not (is_some s.pending_revision) && same s.current_revision (some target)
      then (if not (same s.current_receipt (some receipt))
          then (err Error.completed_receipt_differs, s)
          else settle_marker target receipt s)
      else if not (
          same s.pending_revision (some target)
          && (same s.pending_receipt (some receipt) && is_ready s.phase))
      then (err Error.not_ready_for_completion, s)
      else (do
        verify_marker target receipt
        transaction (complete_journal target receipt)
        remove_marker target receipt)
          s

  unfoldable pub complete : ℕ → Bytes → Exec (Unit {0})
  complete revision receipt_id = do
    target ← lift (revision_of revision)
    receipt ← lift (receipt_of receipt_id)
    require_publication_lock
    check_journal codec
    complete_at target receipt
