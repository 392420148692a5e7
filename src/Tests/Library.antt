-- ===== src/Tests/Library.antt =====
-- A small activation, and the theorems about the library applied to it.
use h2hdb_ingest.Prelude.{
  ℕ, ◌≡◌, ◌+◌, ◌*◌, ◌/◌, ◌%◌, ◌==◌, if◌then◌else◌, not, ◌&&◌, true, false, some, List, [], ◌∷◌,
  ◌++◌, arith, refl, ok, All,
}
use h2hdb_ingest.Library.Tables.{
  same_cursor, before, same_key, same_artifact, same_object, same_identity, find_current,
  current_conflict, upsert_current, delete_current, find_pending, pending_conflict, insert_pending,
  update_pending, unactivated, later, greatest, stale, find_removal, removals_of, start_removal,
  delete_removal,
}
use h2hdb_ingest.Library.State.{
  ◌>>=◌, transaction, transaction_with, require_guard, require_publication_lock,
  acquire_publication_lock, journal_state, check_journal, checkpoint,
}
use h2hdb_ingest.Library.Marker.{verify_marker, write_marker, remove_marker, settle_marker}
use h2hdb_ingest.Library.Spool.{
  insert_entry, append_item, append_items, increasing, append_page, activate_page, seal_journal,
  seal,
}
use h2hdb_ingest.Library.Activation.{
  open_pending, begin_at, begin, complete_journal, complete_at, complete,
}
use h2hdb_ingest.Library.Install.{
  staged_candidate, reserve_install, reserve_each, reserve_installs, perform_install,
  perform_installs, verify_installs,
}
use h2hdb_ingest.Library.Publish.{
  terminalize_stage, terminalize_install, terminalize_installs, record_cursor, publish_page,
  commit_verified, commit_installs, install_plans, activate_pending,
}
use h2hdb_ingest.Library.Removal.{
  select_removals, plan_removals, start_each, reserve_removals, terminalize_removal,
  terminalize_removals, perform_removals, remove_page, commit_removals, remove_plans, remove_stale,
}
use h2hdb_ingest.Library.Reconcile.{
  start_activating, become_ready, enter_phase, enter, finish_page, remove_rest, reconcile_rest,
  reconcile_page,
}
use h2hdb_ingest.Library.Cleanup.{
  cleanable, clear_token, clear_journal, clear_rows, drop, purge, purge_entries, finish_cleanup,
  clean, select_cleanup, maintain_cleanup,
}
use h2hdb_ingest.Library.Protection.{
  find_token, slot_taken, find_installed, open_row, insert_token, open_stage, update_token,
  finish_stage,
}
use h2hdb_ingest.Library.Withdrawing.{
  is_referenced, select_release, insert_tombstone, is_partial, release_row,
}
use h2hdb_ingest.Library.Staging.{
  commit_call, commit_calls, meanwhile, request_of, release_of, replay_result, recover, finished,
  stage_written, protect_rest, protect_request, protect, clear_stage, release_token, select,
  release,
}
use h2hdb_ingest.Library.Calls.{perform, run}
use h2hdb_ingest.Library.Progress.Counts.{open_count}
use h2hdb_ingest.Library.Tables.{Cursor, Kind, rank, acquisition, thumbnail, StorageKey, Identity}
use h2hdb_ingest.Library.State.{CursorCodec, Library, Journal, Bytes, Token, TokenState, is_ready}
use h2hdb_ingest.Library.Spool.{Item, entry_of}
use h2hdb_ingest.Library.Install.{Disk}
use h2hdb_ingest.Library.Removal.{RemovalDisk}
use h2hdb_ingest.Library.Protection.{Request}
use h2hdb_ingest.Library.Withdrawing.{Release}
use h2hdb_ingest.Library.Staging.{StageDisk, TokenCall, releases, opens}
use h2hdb_ingest.Library.Calls.{
  Call, begin_call, page_call, seal_call, reconcile_call, complete_call, protect_call, cleanup_call,
  guard,
}
use h2hdb_ingest.Library.Activation.{is_past_open}
use h2hdb_ingest.Library.Revisions.{fresh, run-check_journal, run-current_revision, AtLeast}
use h2hdb_ingest.Library.Resumption.{begin-resumes, IsResumed}
use h2hdb_ingest.Library.Pending.{run-pending, IsHeld}
use h2hdb_ingest.Library.Pages.{IsSpooled, append_page-IsSpooled, append_page-kept}
use h2hdb_ingest.Library.Marker.{is_present, is_marker_of, revision_of, receipt_of}
use h2hdb_ingest.Library.Reconciled.{IsPublished, run-ready}
use h2hdb_ingest.Library.Stored.{run-AreValid, run-HasLater}
use h2hdb_ingest.Library.Progress.{Page, reconcile_all, IsFinished, reconcile_all-IsFinished}
use h2hdb_ingest.Library.Progress.Counts.{work}
use h2hdb_ingest.Library.Tokens.Shape.{AreValid}
use h2hdb_ingest.Library.Tokens.Replace.{HasLater}
use h2hdb_ingest.Library.Stored.Answers.{IsAnswered, protect_request-IsAnswered}
use h2hdb_ingest.Library.Stored.Releases.{IsWithdrawn, release_token-IsWithdrawn}

abbrev kind_of : ℕ → Kind
kind_of n = if n == 0 then acquisition else thumbnail

abbrev codec : CursorCodec
codec = record {
  to_bytes = λ c. 2 * c.publication_key + rank c.kind;
  from_bytes = λ n. some (record { publication_key = n / 2; kind = kind_of (n % 2) });
  decode = λ c. ground arith;
  order = λ a b. unfold before in ground arith;
}

abbrev receipt : ℕ → Bytes
receipt n = record { size = 16; value = n }

abbrev digest_bytes : ℕ → Bytes
digest_bytes n = record { size = 32; value = n }

abbrev at : ℕ → Cursor
at n = record { publication_key = n; kind = acquisition }

abbrev key : ℕ → StorageKey
key n = record { gid = n; kind = acquisition }

abbrev item : ℕ → ℕ → Item
item n digest = record {
  is_well_formed = true;
  at = at n;
  gid = n;
  key = some (key n);
  digest = digest;
  size_bytes = 5;
  modified_at = some 9;
}

abbrev identity : ℕ → Identity
identity n = record { device = 1; inode = n; modified_ns = 9; changed_ns = 9 }

-- a staging directory on which every file operation succeeds
abbrev stage_disk : List TokenCall → StageDisk
stage_disk others = record {
  require_current = λ k n i. ok tt;
  verify_stage = λ r t. ok tt;
  verify_current = λ r. ok tt;
  write_stage = λ r. ok (identity r.token);
  discard = λ r i. ok tt;
  has_stage = λ r. false;
  has_temporary = λ r. false;
  remove = λ r t. ok tt;
  others = others;
}

-- the bytes of an item, staged under a token
abbrev protect_item : ℕ → ℕ → Call
protect_item n digest =
    protect_call (stage_disk []) (some (key n)) (digest_bytes digest) 5 (some 9)
      (digest_bytes (100 + n))

-- a disk on which every file operation succeeds
abbrev disk : Disk
disk = record {
  require_current = λ k n i. ok i;
  has_quarantine = λ k n. false;
  install_staged = λ p s. ok s.identity;
  retire_current = λ p c. ok tt;
}

abbrev removals : RemovalDisk
removals = record { perform = λ p. ok tt; has_reappeared = λ p. false }

abbrev reconcile : ℕ → ℕ → Call
reconcile revision n = reconcile_call disk removals revision (receipt n) 10

abbrev staging_calls : List Call
staging_calls = protect_item 1 11 ∷ protect_item 2 22 ∷ []

-- revision 1 publishes the keys 1 and 2
abbrev publishing_calls : List Call
publishing_calls =
    guard
    ∷ begin_call 1 (receipt 7)
    ∷ page_call 1 (item 1 11 ∷ item 2 22 ∷ [])
    ∷ seal_call 1
    ∷ reconcile 1 7
    ∷ reconcile 1 7
    ∷ complete_call 1 (receipt 7)
    ∷ []

abbrev first_calls : List Call
first_calls = staging_calls ++ publishing_calls

-- revision 2 keeps the key 2 and drops the key 1: its reconciliation is READY
abbrev second_calls : List Call
second_calls =
    cleanup_call (λ t. ok tt)
    ∷ begin_call 2 (receipt 8)
    ∷ page_call 2 (item 2 22 ∷ [])
    ∷ seal_call 2
    ∷ reconcile 2 8
    ∷ reconcile 2 8
    ∷ reconcile 2 8
    ∷ []

abbrev both_calls : List Call
both_calls = first_calls ++ second_calls

-- the same activation, sealed only
abbrev sealing_calls : List Call
sealing_calls =
    cleanup_call (λ t. ok tt)
    ∷ begin_call 2 (receipt 8)
    ∷ page_call 2 (item 2 22 ∷ [])
    ∷ seal_call 2
    ∷ []

abbrev sealed_library : Library
sealed_library = run codec (first_calls ++ sealing_calls) fresh

-- a call of `reconcile_page` that takes one row
abbrev one_row : Page
one_row = record { disk = disk; removals = removals; limit = 1 }

-- the library in the middle of the activation of revision 2
abbrev halfway : Library
halfway = run codec both_calls fresh

-- a spool that holds the key 1 already
abbrev page : List Item
page = item 3 33 ∷ item 4 44 ∷ []

abbrev spool_calls : List Call
spool_calls = guard ∷ begin_call 1 (receipt 7) ∷ page_call 1 (item 1 11 ∷ []) ∷ []

abbrev open_journal : Journal
open_journal = (run codec spool_calls fresh).journal

abbrev grown_journal : Journal
grown_journal = (run codec (spool_calls ++ page_call 1 page ∷ []) fresh).journal

-- the row of the first token, once its bytes are staged
abbrev staged_row : Token
staged_row = record {
  token = 101;
  key = key 1;
  digest = 11;
  size_bytes = 5;
  modified_at = some 9;
  state = TokenState.staged;
  staging_leaf = some (record { token = 101; kind = acquisition });
  identity = some (identity 101);
}

-- The second reconciliation is READY, the first is current, and the page is accepted.
computed :
    (is_ready halfway.phase ≡ true)
    × (halfway.pending_revision ≡ some 2)
    × ((run codec first_calls fresh).current_revision ≡ some 1)
    × (halfway.pending_receipt ≡ some 8)
    × (append_page codec 1 page open_journal ≡ ok grown_journal)
    × (find_pending 1 (at 1) open_journal.pending_entries ≡ some (entry_of 1 (item 1 11) (key 1) 9))
    × (find_token 101 (run codec staging_calls fresh).tokens ≡ some staged_row)
    × (work sealed_library.journal ≡ 4)
unfolding same_cursor before same_key same_artifact same_object same_identity find_current
    current_conflict upsert_current delete_current find_pending pending_conflict insert_pending
    update_pending unactivated later greatest stale find_removal removals_of start_removal
    delete_removal ◌>>=◌ transaction transaction_with require_guard require_publication_lock
    acquire_publication_lock journal_state check_journal checkpoint verify_marker write_marker
    remove_marker settle_marker insert_entry append_item append_items increasing append_page
    activate_page seal_journal seal open_pending begin_at begin complete_journal complete_at
    complete staged_candidate reserve_install reserve_each reserve_installs perform_install
    perform_installs verify_installs terminalize_stage terminalize_install terminalize_installs
    record_cursor publish_page commit_verified commit_installs install_plans activate_pending
    select_removals plan_removals start_each reserve_removals terminalize_removal
    terminalize_removals perform_removals remove_page commit_removals remove_plans remove_stale
    start_activating become_ready enter_phase enter finish_page remove_rest reconcile_rest
    reconcile_page cleanable clear_token clear_journal clear_rows drop purge purge_entries
    finish_cleanup clean select_cleanup maintain_cleanup find_token slot_taken find_installed
    open_row insert_token open_stage update_token finish_stage is_referenced select_release
    insert_tombstone is_partial release_row commit_call commit_calls meanwhile request_of release_of
    replay_result recover finished stage_written protect_rest protect_request protect clear_stage
    release_token select release perform run open_count
computed = (refl, refl, refl, refl, refl, refl, refl, refl)

-- The second activation can be resumed.
resumed :
    (revision_of 2 ≡ ok 2)
    × (receipt_of (receipt 8) ≡ ok 8)
    × (halfway.guarded ≡ true)
    × ((is_past_open halfway.phase
          && (is_present halfway.marker && not (is_marker_of 2 8 halfway.marker)))
        ≡ false)
unfolding same_cursor before same_key same_artifact same_object same_identity find_current
    current_conflict upsert_current delete_current find_pending pending_conflict insert_pending
    update_pending unactivated later greatest stale find_removal removals_of start_removal
    delete_removal ◌>>=◌ transaction transaction_with require_guard require_publication_lock
    acquire_publication_lock journal_state check_journal checkpoint verify_marker write_marker
    remove_marker settle_marker insert_entry append_item append_items increasing append_page
    activate_page seal_journal seal open_pending begin_at begin complete_journal complete_at
    complete staged_candidate reserve_install reserve_each reserve_installs perform_install
    perform_installs verify_installs terminalize_stage terminalize_install terminalize_installs
    record_cursor publish_page commit_verified commit_installs install_plans activate_pending
    select_removals plan_removals start_each reserve_removals terminalize_removal
    terminalize_removals perform_removals remove_page commit_removals remove_plans remove_stale
    start_activating become_ready enter_phase enter finish_page remove_rest reconcile_rest
    reconcile_page cleanable clear_token clear_journal clear_rows drop purge purge_entries
    finish_cleanup clean select_cleanup maintain_cleanup find_token slot_taken find_installed
    open_row insert_token open_stage update_token finish_stage is_referenced select_release
    insert_tombstone is_partial release_row commit_call commit_calls meanwhile request_of release_of
    replay_result recover finished stage_written protect_rest protect_request protect clear_stage
    release_token select release perform run open_count
resumed = (refl, refl, refl, refl)

run-ready_example :
    IsPublished
      (find_pending 2 (at 2) (run codec both_calls fresh).pending_entries)
      (find_current (at 2) (run codec both_calls fresh).current_entries)
run-ready_example = run-ready codec both_calls 2 (at 2) computed.1 computed.0

run-check_journal_example :
    check_journal codec (run codec both_calls fresh) ≡ (ok tt, run codec both_calls fresh)
run-check_journal_example = run-check_journal codec both_calls

run-current_revision_example :
    AtLeast 1 (run codec second_calls (run codec first_calls fresh)).current_revision
run-current_revision_example = run-current_revision codec first_calls second_calls 1 computed.2

begin-resumes_example : IsResumed codec 2 8 halfway (begin codec 2 (receipt 8) halfway)
begin-resumes_example =
    begin-resumes codec both_calls 2 2 8 (receipt 8) resumed.0 resumed.1 resumed.2 computed.1
      computed.3 resumed.3

-- the rest of the activation, after a begin of another one
abbrev finishing_calls : List Call
finishing_calls =
    begin_call 3 (receipt 9) ∷ begin_call 2 (receipt 8) ∷ complete_call 2 (receipt 8) ∷ []

run-pending_example : IsHeld 2 8 (run codec finishing_calls (run codec both_calls fresh)).journal
run-pending_example = run-pending codec both_calls finishing_calls 2 8 computed.1 computed.3

append_page-IsSpooled_example : All (IsSpooled 1 grown_journal.pending_entries) page
append_page-IsSpooled_example =
    append_page-IsSpooled codec 1 page open_journal grown_journal computed.4

append_page-kept_example :
    find_pending 1 (at 1) grown_journal.pending_entries ≡ some (entry_of 1 (item 1 11) (key 1) 9)
append_page-kept_example =
    append_page-kept codec 1 1 page (at 1) (entry_of 1 (item 1 11) (key 1) 9) open_journal
      grown_journal computed.4 computed.5

run-AreValid_example : AreValid (run codec both_calls fresh).tokens
run-AreValid_example = run-AreValid codec both_calls

run-HasLater_example :
    HasLater staged_row
      (find_token 101 (run codec publishing_calls (run codec staging_calls fresh)).tokens)
run-HasLater_example = run-HasLater codec staging_calls publishing_calls 101 staged_row computed.6

abbrev request : Request
request = record { token = 105; key = key 5; digest = 55; size_bytes = 5; modified_at = 9 }

abbrev withdrawal : Release
withdrawal = record { token = 105; key = key 5; digest = 55; size_bytes = 5 }

-- the token is released while its bytes are written
protect_request-IsAnswered_example :
    IsAnswered request (protect_request (stage_disk (releases withdrawal ∷ [])) request fresh)
protect_request-IsAnswered_example =
    protect_request-IsAnswered (stage_disk (releases withdrawal ∷ [])) request fresh

-- a staged token is released
release_token-IsWithdrawn_example :
    IsWithdrawn withdrawal
      (release_token (stage_disk (opens request ∷ [])) withdrawal (some staged_row) fresh)
release_token-IsWithdrawn_example =
    release_token-IsWithdrawn (stage_disk (opens request ∷ [])) withdrawal (some staged_row) fresh

abbrev pages : List Page
pages = one_row ∷ one_row ∷ one_row ∷ one_row ∷ one_row ∷ []

reconcile_all-IsFinished_example :
    IsFinished codec 2 (receipt 8) (reconcile_all codec 2 (receipt 8) pages sealed_library)
reconcile_all-IsFinished_example =
    reconcile_all-IsFinished codec 2 (receipt 8) pages sealed_library (omega (arith, computed.7))
