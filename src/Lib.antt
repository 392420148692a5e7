-- ===== src/Lib.antt =====
-- h2hdb-ingest: a catalog publisher that watches a source of galleries, renders them to artifacts
-- and activates catalog revisions in a managed library on disk.
--
-- The parts that are modelled, and where:
--   Library: the activation of a catalog revision (src/h2hdb_ingest/library.py, tables in
--     src/h2hdb_ingest/_library_journal.py). Library/Tables are the tables of the journal and the
--     SQL statements on them, Library/State the rows of `library_state`, the ACTIVATING marker, the
--     locks and `_journal_state`, Library/Marker the marker's methods. `begin` and `complete` are in
--     Library/Activation, `activate_page` and `seal` in Library/Spool, `reconcile_page` in
--     Library/Reconcile with its installs in Library/Install and Library/Publish and its removals in
--     Library/Removal, `maintain_cleanup` in Library/Cleanup. A method is an action on the state
--     that returns or raises; a transaction that raises writes nothing, and what was committed
--     before stays. `protect` and `release` are in Library/Staging, their transactions on the table
--     of tokens in Library/Protection and Library/Withdrawing; what other callers commit between two
--     transactions is a list of further transactions. Library/Calls is any sequence of calls.
--     Library/Preserved is what an invariant of the journal must keep to hold over such a sequence;
--     Library/Inversion says what a transaction reads and writes; Library/Coherence,
--     Library/Revisions, Library/Resumption, Library/Pending, Library/Pages and Library/Reconciled hold the invariants and the theorems, Library/Tokens the invariant and the
--     life of a row of the table of tokens, Library/Stored the theorems about it; Library/Progress
--     measures the work that a reconciliation has left.
--     Library/Files are the files of one storage key and what a process that ends leaves of them:
--     the checks on them in Files/Checks, `_quarantine_current` and its recovery in Files/Capture,
--     `_perform_pending_install` in Files/Install and `_perform_pending_removal` in Files/Removal;
--     Files/Runs has the rules for runs, Files/Phases the states that a run can leave, the modules
--     after them the runs from each such state, Files/Attempts the repeated attempts; the modules
--     from Files/Kept on are about the files that are not of a plan.
--   Relocation: the verification of a library that was moved to another mount
--     (src/h2hdb_ingest/library_relocation.py). Relocation/Resolve is `_resolve`, on the rows about
--     one storage path, of which each table has one at most, with its checks of the rows in
--     Relocation/Rows and its bindings in Relocation/Bind; the modules after it prove what it binds.
--   Schedule: the debounce of source scans (src/h2hdb_ingest/source_schedule.py), with its
--     invariant, its deadlines and its tickets in the modules below.
--   Pixels: `_fit_pixels` of src/h2hdb_ingest/source_image.py, over exact fractions and the integer
--     square root.
--   Reobservation: the sources that are observed again after a failure
--     (src/h2hdb_ingest/_source_retry.py).
--   Workers: how many workers render pages (src/h2hdb_ingest/page_workers.py); Workers/Detection is
--     the CPU topology that the threads of a process share.
--   Storage: the paths and keys of stored objects (src/h2hdb_ingest/_storage_paths.py and
--     src/h2hdb_ingest/storage.py).
--   Session: the receipt of an ingest session and its renewal (src/h2hdb_ingest/session.py). A step
--     of a thread is a method under the controller's lock; what `outside_session` and `prepare` do
--     after their check is another one.
--   Monitor: the index of completion markers and the monitor that notes changes in the schedule
--     (src/h2hdb_ingest/source_monitor.py). A probe is the list of what its iterator gives, which
--     may end in an exception.
--   Recovery: the lines about an operation that fails repeatedly
--     (src/h2hdb_ingest/_log_recovery.py).
--   Prelude: the shared names, and texts as lists of characters. Tests: the theorems at
--     concrete inputs.
--
-- How the code is read: a row list stands in primary-key order, which is the order of every ORDER
-- BY; byte strings of a fixed length are numbers; a token's staging leaf is the token and its
-- resource kind. Loops are over lists of rows, or over a page that the code bounds. The decimal
-- text of a GID is written with a bound, 19 digits, which 2 ^ 63 does not pass; the retries of a
-- renewal run on fuel, and one attempt for each tenth of a second of the lease, and two more, are
-- enough; the deletions of a monitor pass run on fuel, and one page for each row and one more are
-- enough. A square root is the greatest number whose square is within the argument.
--
-- A file is its signature and the digest of its bytes; a rename or unlink is done, or the process
-- ends before it, after it, or with both names on the disk. Nobody else writes below the root.
--
-- Parameters: for the journal, the file operations below the library root (Library.Install.Disk,
-- Library.Removal.RemovalDisk and Library.Staging.StageDisk, any of which may raise), the digest
-- that names the shard of a GID (Storage.Shards), the probes of the CPU topology, which may raise, the answers and the
-- clocks that a renewal meets (Session.Renewing), what a read of a place below a moved root gives
-- (Relocation.Reader), and the 33-byte cursor of the h2hdb package (Library.State.CursorCodec), which
-- is read back from its bytes and is ordered as its columns.
--
-- Not modelled: the writing of a staged file and the removal of one; the pinned storage identity;
-- the SQL types of a corrupted row; the opening of locks and files, which may raise before a method
-- starts; rendering, the session of a relocation, the resident loop, configuration, the text of log
-- lines, and metrics.
mod Prelude
mod Tests
pub mod Library
pub mod Relocation
pub mod Pixels
pub mod Reobservation
pub mod Schedule
pub mod Workers
pub mod Storage
pub mod Session
pub mod Monitor
pub mod Recovery
