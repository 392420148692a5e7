-- ===== src/Tests/Files.antt =====
-- The theorems about the files of a key at concrete files and process ends.
use h2hdb_ingest.Prelude.{true, ℕ, ◌≡◌, false, none, some, List, [], ◌∷◌, err, refl}
use h2hdb_ingest.Library.Tables.{same_identity}
use h2hdb_ingest.Library.Files.{
  File, Error, Event, proceeds, stops_between, stops_after, stops_before, touched, ◌>>=◌, check,
  same_signature, same_content, same_inode, rename, unlink,
}
use h2hdb_ingest.Library.Files.Checks.{
  links, verify_regular, require_metadata, require_authority, verify_and_fsync, verify_renamed,
  require_shared, verify_shared, fsync_renamed, fsync_recovered_capture, fsync_recovered_install,
  verify_captured, require_exact,
}
use h2hdb_ingest.Library.Files.Capture.{
  heal_duplicate, check_or_give_back, quarantine_current, capture_replaced_current,
  unlink_quarantined,
}
use h2hdb_ingest.Library.Files.Install.{
  install_fresh_staged, rename_fresh, rename_waiting, install_waiting, install_renamed,
  install_visible, install_staged, conclude, perform_install,
}
use h2hdb_ingest.Library.Files.Places.{files_of}
use h2hdb_ingest.Library.Files.Phases.{install_plan, IsRecoverable, IsInstalled}
use h2hdb_ingest.Library.Files.Kept.{is_kept}
use h2hdb_ingest.Library.Files.Safe.{perform_install-is_kept}
use h2hdb_ingest.Library.Files.Attempts.{
  install_attempts, removal_attempts, IsAttempted, IsDone, install_attempts-IsDone,
  removal_attempts-IsDone,
}

abbrev file : ℕ → ℕ → File
file inode digest = record {
  signature = record {
    identity = record { device = 1; inode = inode; modified_ns = 5; changed_ns = 6 };
    size_bytes = 10;
  };
  digest = digest;
}

abbrev new_file : File
new_file = file 2 20

abbrev old_file : File
old_file = file 3 30

-- the old file is captured and the process ends in the rename of the new one
abbrev first_events : List Event
first_events = proceeds 7 ∷ stops_between 8 ∷ []

-- the doubled name is collapsed, and the process ends before the old file is deleted
abbrev second_events : List Event
second_events = proceeds 9 ∷ stops_before ∷ []

abbrev third_events : List Event
third_events = proceeds 11 ∷ []

ok_first :
    install_attempts new_file
      (some old_file)
      first_events
      []
      (files_of (some new_file) (some old_file) none)
    ≡ (
      err Error.stopped,
      record {
        files =
            files_of
              (some (touched 8 new_file))
              (some (touched 8 new_file))
              (some (touched 7 old_file));
        events = [];
      },
    )
unfolding same_identity ◌>>=◌ check same_signature same_content same_inode rename unlink links
    verify_regular require_metadata require_authority verify_and_fsync verify_renamed require_shared
    verify_shared fsync_renamed fsync_recovered_capture fsync_recovered_install verify_captured
    require_exact heal_duplicate check_or_give_back quarantine_current capture_replaced_current
    unlink_quarantined install_fresh_staged rename_fresh rename_waiting install_waiting
    install_renamed install_visible install_staged conclude perform_install
ok_first = refl

-- a current file that is not the one of the plan is left alone
foreign_current :
    perform_install
      (install_plan new_file (some old_file) false)
      (record { files = files_of (some new_file) (some (file 4 40)) none; events = [] })
    ≡ (
      err Error.changed_digest,
      record { files = files_of (some new_file) (some (file 4 40)) none; events = [] },
    )
unfolding same_identity ◌>>=◌ check same_signature same_content same_inode rename unlink links
    verify_regular require_metadata require_authority verify_and_fsync verify_renamed require_shared
    verify_shared fsync_renamed fsync_recovered_capture fsync_recovered_install verify_captured
    require_exact heal_duplicate check_or_give_back quarantine_current capture_replaced_current
    unlink_quarantined install_fresh_staged rename_fresh rename_waiting install_waiting
    install_renamed install_visible install_staged conclude perform_install
foreign_current = refl

new_IsOther : same_inode new_file old_file ≡ false
unfolding same_inode
new_IsOther = refl

old_IsOther : same_inode old_file new_file ≡ false
unfolding same_inode
old_IsOther = refl

install_attempts-IsDone_example :
    IsAttempted (IsRecoverable new_file (some old_file)) (IsInstalled new_file) (
      install_attempts new_file
        (some old_file)
        first_events
        (second_events ∷ [])
        (files_of (some new_file) (some old_file) none))
    × IsDone (IsInstalled new_file) (
        install_attempts new_file
          (some old_file)
          first_events
          (second_events ∷ third_events ∷ [])
          (files_of (some new_file) (some old_file) none))
install_attempts-IsDone_example =
    install_attempts-IsDone new_file (some old_file) first_events (second_events ∷ []) third_events
      new_IsOther refl

-- a file that somebody has put in the place of the old one
abbrev foreign_file : File
foreign_file = file 4 40

foreign_IsOther : same_inode foreign_file old_file ≡ false
unfolding same_inode
foreign_IsOther = refl

foreign_IsThere :
    is_kept foreign_file (files_of (some new_file) (some foreign_file) (some old_file)) ≡ true
unfolding same_inode
foreign_IsThere = refl

perform_install-is_kept_example :
    is_kept foreign_file
      (perform_install (install_plan new_file (some old_file) false) (record {
        files = files_of (some new_file) (some foreign_file) (some old_file);
        events = proceeds 7 ∷ [];
      })).1.files
    ≡ true
perform_install-is_kept_example =
    perform_install-is_kept foreign_file (install_plan new_file (some old_file) false)
      (record {
        files = files_of (some new_file) (some foreign_file) (some old_file);
        events = proceeds 7 ∷ [];
      })
      foreign_IsOther foreign_IsThere

removal_attempts-IsDone_example :
    IsDone
      (λ (_ : Unit {0}) fs. fs ≡ files_of (some new_file) none none)
      (removal_attempts old_file
        (stops_between 8 ∷ [])
        ((stops_after 9 ∷ []) ∷ third_events ∷ [])
        (files_of (some new_file) (some old_file) none))
removal_attempts-IsDone_example =
    removal_attempts-IsDone (some new_file) old_file (stops_between 8 ∷ [])
      ((stops_after 9 ∷ []) ∷ []) third_events old_IsOther refl
