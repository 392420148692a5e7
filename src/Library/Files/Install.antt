-- ===== src/Library/Files/Install.antt =====
-- The installation of one staged file in place of an old one: `_perform_pending_install` of
-- library.py and what it calls.
use h2hdb_ingest.Prelude.{
  ℕ, Bool, true, false, ◌&&◌, Option, none, some, Result, ok, err, ◌==◌, if◌then◌else◌, not,
}
use h2hdb_ingest.Library.Files.{
  Signature, File, Files, in_stage, in_current, in_quarantine, Error, Exec, ◌>>=◌, ◌>>◌, pure,
  raise, check, lstat, same_signature, same_content, rename,
}
use h2hdb_ingest.Library.Files.Checks.{
  verify_regular, require_authority, require_absent, verify_and_fsync, verify_renamed,
  fsync_recovered_install, require, require_exact,
}
use h2hdb_ingest.Library.Files.Capture.{
  heal_duplicate, capture_replaced_current, unlink_quarantined,
}

-- `_PendingInstall`: the staged signature, and the old file with its digest and its size
pub record FilePlan : Type 0 where
  pub digest : ℕ
  pub size_bytes : ℕ
  pub staged : Option Signature
  pub current : Option File
  pub fresh_authorization : Bool

abbrev capture_old : File → Bool → Exec (Unit {0})
capture_old f = capture_replaced_current f.digest f.signature.size_bytes f.signature

abbrev pub capture_fresh : Option File → Option File → Exec (Unit {0})
capture_fresh (some old) (some c) =
    check (require_exact old.signature in_current) >> capture_old old true
capture_fresh (some old) none = raise Error.path_changed
capture_fresh none (some c) = raise Error.unknown_target
capture_fresh none none = pure tt

-- the rename of `_install_fresh_staged`
unfoldable pub rename_fresh : FilePlan → Signature → Exec Signature
rename_fresh plan staged = do
  check (require_absent in_current Error.unknown_target)
  signature ← check (require_authority plan.size_bytes staged false in_stage)
  rename in_stage in_current
  installed ← check (require_authority plan.size_bytes signature true in_current)
  check (require_absent in_stage Error.retained_source)
  pure installed

-- `_install_fresh_staged`
unfoldable pub install_fresh_staged : FilePlan → Signature → Exec Signature
install_fresh_staged plan staged = do
  _ ← check (require_authority plan.size_bytes staged false in_stage)
  found ← lstat in_current
  capture_fresh plan.current found
  rename_fresh plan staged

abbrev pub capture_known : Option File → Option File → Exec (Unit {0})
capture_known (some old) found = capture_old old false
capture_known none (some c) = raise Error.unknown_target
capture_known none none = pure tt

-- the rename of `_install_staged`
unfoldable pub rename_waiting : FilePlan → Signature → Exec Signature
rename_waiting plan staged = do
  check (require_absent in_current Error.unknown_target)
  signature ← check (verify_regular plan.digest plan.size_bytes in_stage)
  check (require (same_signature signature staged) Error.path_changed)
  rename in_stage in_current
  installed ← check (verify_regular plan.digest plan.size_bytes in_current)
  check (require (same_content installed staged) Error.changed_identity)
  check (require_absent in_stage Error.retained_source)
  pure installed

-- the staged file is still to be renamed
unfoldable pub install_waiting : FilePlan → Signature → Option File → Exec Signature
install_waiting plan staged found = do
  verified ← check (verify_regular plan.digest plan.size_bytes in_stage)
  check (require (same_signature verified staged) Error.changed_identity)
  capture_known plan.current found
  rename_waiting plan staged

abbrev passed : Result Error Signature → Result Error (Unit {0})
passed (ok signature) = ok tt
passed (err e) = err e

abbrev pub verify_quarantined_old : Option File → Option File → Files → Result Error (Unit {0})
verify_quarantined_old (some old) (some q) fs =
    passed (verify_renamed old.digest old.signature.size_bytes old.signature in_quarantine fs)
verify_quarantined_old _ _ fs = ok tt

-- the replay of a rename of which only the response was lost
unfoldable pub install_renamed : FilePlan → Signature → Exec Signature
install_renamed plan staged = do
  quarantined ← lstat in_quarantine
  check (verify_quarantined_old plan.current quarantined)
  check (fsync_recovered_install plan.digest plan.size_bytes staged)
  durable ← check (verify_and_fsync plan.digest plan.size_bytes in_current)
  check (require (same_content durable staged) Error.changed_identity)
  pure durable

abbrev is_content : Result Error Signature → Signature → Bool
is_content (ok recovered) staged = same_content recovered staged
is_content (err e) staged = false

-- what is read where only the current name is there; a failed verification is passed over
abbrev is_renamed : FilePlan → Signature → Files → Bool
is_renamed plan staged fs =
    is_content (verify_and_fsync plan.digest plan.size_bytes in_current fs) staged

unfoldable pub install_visible : FilePlan → Signature → Exec Signature
install_visible plan staged s =
    if is_renamed plan staged s.files
    then install_renamed plan staged s
    else (err Error.authorities_disagree, s)

-- the current name does not have the old file
abbrev is_replayed : Option File → File → Bool
is_replayed none c = true
is_replayed (some old) c = not (same_content c.signature old.signature)

-- `_heal_recovered_install_duplicate`
abbrev pub heal_install : FilePlan → Signature → Exec Signature
heal_install plan staged = heal_duplicate plan.digest plan.size_bytes staged in_stage in_current

abbrev pub install_found : FilePlan → Signature → Option File → Option File → Exec Signature
install_found plan staged (some c) (some g) s =
    if is_replayed plan.current c
    then heal_install plan staged s
    else install_waiting plan staged (some c) s
install_found plan staged (some c) none s = install_visible plan staged s
install_found plan staged none none s = (err Error.authorities_disagree, s)
install_found plan staged none (some g) s = install_waiting plan staged none s

-- `_install_staged`
unfoldable pub install_staged : FilePlan → Signature → Exec Signature
install_staged plan staged s =
    if plan.fresh_authorization
    then install_fresh_staged plan staged s
    else install_found plan staged s.files.current s.files.stage s

abbrev pub retire_old : Option File → Bool → Exec (Unit {0})
retire_old none fresh = pure tt
retire_old (some old) fresh =
    unlink_quarantined old.digest old.signature.size_bytes old.signature fresh

-- what follows the installation of the staged file
unfoldable pub conclude : FilePlan → Signature → Signature → Exec Signature
conclude plan staged signature = do
  retire_old plan.current plan.fresh_authorization
  durable ← check (require_authority plan.size_bytes signature false in_current)
  check (require (same_content durable staged) Error.lost_staged_inode)
  pure durable

abbrev perform_staged : FilePlan → Signature → Exec Signature
perform_staged plan staged = install_staged plan staged >>= conclude plan staged

abbrev pub perform_unchanged : FilePlan → Option File → Exec Signature
perform_unchanged plan none = raise Error.lacks_staged_authority
perform_unchanged plan (some old) =
    check (
      require (old.digest == plan.digest && old.signature.size_bytes == plan.size_bytes)
        Error.lacks_staged_authority)
    >> check (require_absent in_quarantine Error.replacement_quarantine)
    >> check (require_authority plan.size_bytes old.signature false in_current)

abbrev pub perform_with : FilePlan → Option Signature → Exec Signature
perform_with plan none = perform_unchanged plan plan.current
perform_with plan (some staged) = perform_staged plan staged

-- `_perform_pending_install`
unfoldable pub perform_install : FilePlan → Exec Signature
perform_install plan = perform_with plan plan.staged
