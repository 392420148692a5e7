-- ===== src/Library/Removal.antt =====
-- The removal of stale current entries (`_remove_stale` of library.py).
use h2hdb_ingest.Prelude.{
  ℕ, Bool, true, false, not, ◌&&◌, Option, none, some, List, [], ◌∷◌, ◌++◌, Result, ok, err, leb,
  if◌then◌else◌, length, take, map,
}
use h2hdb_ingest.Library.Tables.{
  Cursor, CurrentEntry, PendingRemoval, same_object, same_identity, find_current, delete_current,
  stale, find_removal, removals_of, start_removal, delete_removal,
}
use h2hdb_ingest.Library.State.{
  Error, Journal, Exec, pure, lift, ◌>>=◌, ◌>>◌, transaction, transaction_with,
  require_publication_lock, CursorCodec, Checkpoint, journal_state,
}
use h2hdb_ingest.Library.Marker.{max_page_items}
use h2hdb_ingest.Library.Install.{is_reconciling, require_reconciling}
use h2hdb_ingest.Library.Publish.{record_cursor, at_cursor}

-- The file operations of a removal, and the test that its paths are still free.
pub record RemovalDisk : Type 0 where
  pub perform : PendingRemoval → Result Error (Unit {0})
  pub has_reappeared : PendingRemoval → Bool

abbrev pub removal_of : ℕ → CurrentEntry → PendingRemoval
removal_of revision c = record {
  revision = revision;
  at = c.at;
  artifact = c.artifact;
  identity = c.identity;
  operation_started = false;
}

-- INSERT INTO pending_removals SELECT ... FROM current_entries WHERE NOT EXISTS (...) LIMIT ?
unfoldable pub select_removals : ℕ → ℕ → Journal → Journal
select_removals revision limit j = elim (removals_of revision j.pending_removals) [
  | [] ↦ record j {
    pending_removals =
        j.pending_removals
        ++ map (removal_of revision)
            (take limit (stale revision j.pending_entries j.current_entries));
  }
  | _ ↦ j
]

-- the selection in `reconcile_page`, once no entry is left to install
unfoldable pub plan_removals : CursorCodec → ℕ → ℕ → ℕ → Journal → Result Error Journal
plan_removals codec revision receipt limit j = elim (journal_state codec j) [
  | err e ↦ err e
  | ok _ ↦
      if is_reconciling revision receipt j
      then ok (select_removals revision limit j)
      else err Error.changed_after_installation
]

unfoldable pub start_each : ℕ → List PendingRemoval → List PendingRemoval → List PendingRemoval
start_each revision [] rs = rs
start_each revision (p ∷ ps) rs =
    start_each revision ps (if p.operation_started then rs else start_removal revision p.at rs)

abbrev reserved : ℕ → List PendingRemoval → Journal → Journal × List PendingRemoval
reserved revision plans j =
    (record j { pending_removals = start_each revision plans j.pending_removals }, plans)

-- the transaction of `_reserve_pending_removals`
unfoldable pub reserve_removals :
    CursorCodec → ℕ → ℕ → ℕ → Journal → Result Error (Journal × List PendingRemoval)
reserve_removals codec revision receipt limit j = elim (journal_state codec j) [
  | err e ↦ err e
  | ok _ ↦
      if is_reconciling revision receipt j
      then ok (reserved revision (take limit (removals_of revision j.pending_removals)) j)
      else err Error.changed_during_reconciliation
]

-- `authority()` of two rows: all the columns but `operation_started`
abbrev same_row : PendingRemoval → PendingRemoval → Bool
same_row a b = same_object a.artifact b.artifact && same_identity a.identity b.identity

abbrev is_current_of : PendingRemoval → CurrentEntry → Bool
is_current_of p c = same_object c.artifact p.artifact && same_identity c.identity p.identity

-- `_terminalize_pending_removal_in_transaction`
unfoldable pub terminalize_removal : ℕ → PendingRemoval → Journal → Result Error Journal
terminalize_removal revision p j = elim (find_removal revision p.at j.pending_removals) [
  | none ↦ err Error.removal_changed
  | some r ↦
      if not (same_row r p && r.operation_started)
      then err Error.removal_changed
      else elim (find_current p.at j.current_entries) [
        | none ↦ err Error.current_removal_changed
        | some c ↦
            if not (is_current_of p c)
            then err Error.current_removal_changed
            else ok (record j {
              pending_removals = delete_removal revision p.at j.pending_removals;
              current_entries = delete_current p.at j.current_entries;
            })
      ]
]

unfoldable pub terminalize_removals : ℕ → List PendingRemoval → Journal → Result Error Journal
terminalize_removals revision [] j = ok j
terminalize_removals revision (p ∷ ps) j = elim (terminalize_removal revision p j) [
  | err e ↦ err e
  | ok j' ↦ terminalize_removals revision ps j'
]

abbrev pub last_removed : PendingRemoval → List PendingRemoval → Cursor
last_removed p [] = p.at
last_removed p (q ∷ qs) = last_removed q qs

abbrev pub any_reappeared : RemovalDisk → List PendingRemoval → Bool
any_reappeared disk [] = false
any_reappeared disk (p ∷ ps) = if disk.has_reappeared p then true else any_reappeared disk ps

unfoldable pub perform_removals : RemovalDisk → List PendingRemoval → Result Error (Unit {0})
perform_removals disk [] = ok tt
perform_removals disk (p ∷ ps) = elim (disk.perform p) [
  | err e ↦ err e
  | ok _ ↦ perform_removals disk ps
]

module _ (codec : CursorCodec) where
  unfoldable pub remove_page :
      ℕ → ℕ → PendingRemoval → List PendingRemoval → Journal → Result Error Journal
  remove_page revision receipt p ps j =
      require_reconciling codec revision receipt
        (λ i. elim (terminalize_removals revision (p ∷ ps) i) [
          | err e ↦ err e
          | ok k ↦ record_cursor codec revision receipt (last_removed p ps) k
        ])
        j

  -- `_commit_pending_removals`
  unfoldable pub commit_removals :
      RemovalDisk → ℕ → ℕ → PendingRemoval → List PendingRemoval → Exec Checkpoint
  commit_removals disk revision receipt p ps = do
    require_publication_lock
    lift (if leb (length (p ∷ ps)) max_page_items then ok tt else err Error.page_not_bounded)
    lift (if any_reappeared disk (p ∷ ps) then err Error.removal_reappeared else ok tt)
    transaction (remove_page revision receipt p ps)
    pure (at_cursor codec revision receipt (last_removed p ps))

  unfoldable pub remove_plans : RemovalDisk → ℕ → ℕ → List PendingRemoval → Exec (Option Checkpoint)
  remove_plans disk revision receipt [] = pure none
  remove_plans disk revision receipt (p ∷ ps) = do
    lift (perform_removals disk (p ∷ ps))
    c ← commit_removals disk revision receipt p ps
    pure (some c)

  -- `_remove_stale`: `none` if no removal was left
  unfoldable pub remove_stale : RemovalDisk → ℕ → ℕ → ℕ → Exec (Option Checkpoint)
  remove_stale disk revision receipt limit = do
    plans ← transaction_with (reserve_removals codec revision receipt limit)
    remove_plans disk revision receipt plans
