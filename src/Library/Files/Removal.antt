-- ===== src/Library/Files/Removal.antt =====
-- The removal of one stale file: `_perform_pending_removal` of library.py.
use h2hdb_ingest.Prelude.{
  ℕ, Bool, true, false, Option, none, some, Result, ok, err, if◌then◌else◌, is_some,
}
use h2hdb_ingest.Library.Files.{
  Signature, File, Files, in_current, in_quarantine, Error, Exec, ◌>>=◌, ◌>>◌, pure, check, lstat,
}
use h2hdb_ingest.Library.Files.Checks.{require_fresh, fsync_recovered_capture, require_exact}
use h2hdb_ingest.Library.Files.Capture.{quarantine_current, heal_capture, unlink_quarantined}

-- `_PendingRemoval`
pub record RemovalPlan : Type 0 where
  pub digest : ℕ
  pub signature : Signature
  pub fresh_authorization : Bool

abbrev require_authorized : RemovalPlan → Files → Result Error (Unit {0})
require_authorized plan fs =
    if plan.fresh_authorization then require_fresh plan.signature fs else ok tt

-- The answer says whether the current name was found to be gone.
abbrev pub withdraw : RemovalPlan → Option File → Option File → Exec Bool
withdraw plan none q = pure true
withdraw plan (some f) (some q) =
    heal_capture plan.digest plan.signature.size_bytes plan.signature >> pure true
withdraw plan (some f) none =
    check (require_exact plan.signature in_current)
    >> quarantine_current plan.digest plan.signature.size_bytes plan.signature
        plan.fresh_authorization
    >> pure false

abbrev found_again : RemovalPlan → Option File → Files → Result Error (Unit {0})
found_again plan none fs = if plan.fresh_authorization then err Error.vanished else ok tt
found_again plan (some q) fs = ok tt

abbrev fsync_gone : RemovalPlan → Bool → Bool → Files → Result Error (Unit {0})
fsync_gone plan gone present fs =
    if gone
    then fsync_recovered_capture plan.digest plan.signature.size_bytes plan.signature present fs
    else ok tt

-- what follows the withdrawal of the current name
unfoldable pub delete_withdrawn : RemovalPlan → Bool → Exec (Unit {0})
delete_withdrawn plan gone = do
  found ← lstat in_quarantine
  check (found_again plan found)
  check (fsync_gone plan gone (is_some found))
  unlink_quarantined plan.digest plan.signature.size_bytes plan.signature plan.fresh_authorization

-- `_perform_pending_removal`
unfoldable pub perform_removal : RemovalPlan → Exec (Unit {0})
perform_removal plan = do
  check (require_authorized plan)
  target ← lstat in_current
  quarantined ← lstat in_quarantine
  gone ← withdraw plan target quarantined
  delete_withdrawn plan gone
