-- ===== src/Library/Files/Capture.antt =====
-- The capture of an old file of library.py: it is renamed from `current` to the quarantine, and
-- deleted there once its replacement or its removal is durable.
use h2hdb_ingest.Prelude.{ℕ, Bool, true, false, Option, none, some, Result, ok, err}
use h2hdb_ingest.Library.Files.{
  Signature, File, Files, in_current, in_quarantine, Slot, Error, Run, Exec, ◌>>=◌, ◌>>◌, pure,
  raise, check, lstat, same_signature, same_content, rename, unlink,
}
use h2hdb_ingest.Library.Files.Checks.{
  verify_regular, require_metadata, require_authority, require_absent, verify_and_fsync,
  verify_renamed, verify_shared, fsync_recovered_capture, require, require_exact, verify_captured,
}

-- `_heal_same_inode_rename_duplicate`
unfoldable pub heal_duplicate : ℕ → ℕ → Signature → Slot → Slot → Exec Signature
heal_duplicate digest size expected src dst = do
  duplicate ← check (verify_shared digest size expected src dst)
  durable ← check (verify_shared digest size duplicate src dst)
  check (require (same_signature durable duplicate) Error.path_changed)
  unlink src
  survivor ← check (verify_and_fsync digest size dst)
  check (require (same_content survivor durable) Error.changed_identity)
  check (require_absent src Error.retained_source)
  durable_survivor ← check (verify_regular digest size dst)
  check (require (same_signature durable_survivor survivor) Error.path_changed)
  check (require_metadata durable_survivor dst)
  pure durable_survivor

-- the answer of the rename back: an entry that raced with the capture is left in place
abbrev reason : Error → Error
reason Error.file_exists = Error.foreign_capture
reason e = e

abbrev pub given_back : Result Error (Unit {0}) × Run → Result Error (Unit {0}) × Run
given_back (ok a, s) = (err Error.foreign_capture, s)
given_back (err e, s) = (err (reason e), s)

abbrev pub give_back_unless : Result Error (Unit {0}) → Exec (Unit {0})
give_back_unless (ok a) s = (ok a, s)
give_back_unless (err e) s = given_back (rename in_quarantine in_current s)

unfoldable pub check_or_give_back : (Files → Result Error (Unit {0})) → Exec (Unit {0})
check_or_give_back c s = give_back_unless (c s.files) s

-- `_quarantine_current`
unfoldable pub quarantine_current : ℕ → ℕ → Signature → Bool → Exec (Unit {0})
quarantine_current digest size expected reuse_verified_digest = do
  check (require_exact expected in_current)
  check (require_absent in_quarantine Error.quarantine_occupied)
  rename in_current in_quarantine
  check_or_give_back (verify_captured digest size expected reuse_verified_digest)

-- `_heal_recovered_capture_duplicate`
abbrev pub heal_capture : ℕ → ℕ → Signature → Exec (Unit {0})
heal_capture digest size expected =
    heal_duplicate digest size expected in_current in_quarantine >>= λ _. pure tt

abbrev pub capture_found : ℕ → ℕ → Signature → Bool → Option File → Option File → Exec (Unit {0})
capture_found digest size expected reuse (some q) (some c) = heal_capture digest size expected
capture_found digest size expected reuse (some q) none =
    check (fsync_recovered_capture digest size expected true)
capture_found digest size expected reuse none none = raise Error.both_disappeared
capture_found digest size expected reuse none (some c) =
    check (require_exact expected in_current) >> quarantine_current digest size expected reuse

-- `_capture_replaced_current`
unfoldable pub capture_replaced_current : ℕ → ℕ → Signature → Bool → Exec (Unit {0})
capture_replaced_current digest size expected reuse_verified_digest = do
  quarantined ← lstat in_quarantine
  current ← lstat in_current
  capture_found digest size expected reuse_verified_digest quarantined current

-- `_unlink_verified_at` and `_unlink_preserved_authority_at` below the checks of the caller
abbrev pub unlink_found : ℕ → ℕ → Signature → Bool → Option File → Exec (Unit {0})
unlink_found digest size expected reuse none = pure tt
unlink_found digest size expected true (some f) =
    check (require_authority size expected true in_quarantine) >>= λ observed.
    check (require_exact observed in_quarantine) >> unlink in_quarantine
unlink_found digest size expected false (some f) =
    check (verify_renamed digest size expected in_quarantine) >>= λ verified.
    check (verify_regular digest size in_quarantine) >>= λ again.
    check (require (same_signature again verified) Error.path_changed) >> unlink in_quarantine

-- `_unlink_quarantined`, `_retire_replaced_current`
unfoldable pub unlink_quarantined : ℕ → ℕ → Signature → Bool → Exec (Unit {0})
unlink_quarantined digest size expected reuse_verified_digest = do
  found ← lstat in_quarantine
  unlink_found digest size expected reuse_verified_digest found
