-- ===== src/Library/Files/Spared.antt =====
-- A removal, from any files: no file is lost but the one of the plan.
use h2hdb_ingest.Prelude.{Bool, true, false, Option, none, some, ◌≡◌}
use h2hdb_ingest.Library.Files.{File, Files, Run, same_inode}
use h2hdb_ingest.Library.Files.Removal.{RemovalPlan, withdraw, delete_withdrawn, perform_removal}
use h2hdb_ingest.Library.Files.Phases.{removal_plan}
use h2hdb_ingest.Library.Files.Kept.{is_kept, Keeps, Keeps-bind, Keeps-check, Keeps-pure}
use h2hdb_ingest.Library.Files.Foreign.{heal_capture-Keeps, quarantine_current-Keeps}
use h2hdb_ingest.Library.Files.Safe.{unlink_quarantined-Keeps}

withdraw-Keeps :
    (g : File) {fs : Files} (plan : RemovalPlan) (c q : Option File)
    → Keeps g fs (withdraw plan c q)
withdraw-Keeps g plan none q = Keeps-pure g true
withdraw-Keeps g plan (some c) (some q) =
    Keeps-bind g
      (Keeps-bind g (heal_capture-Keeps g plan.digest plan.signature.size_bytes plan.signature)
        (λ _ fs'. Keeps-pure g tt))
      (λ _ fs'. Keeps-pure g true)
withdraw-Keeps g plan (some c) none =
    Keeps-bind g
      (Keeps-check g _ _ (λ _ _.
        quarantine_current-Keeps g plan.digest plan.signature.size_bytes plan.signature
          plan.fresh_authorization))
      (λ _ fs'. Keeps-pure g false)

delete_withdrawn-Keeps :
    (g : File) {fs : Files} (f : File) (fresh gone : Bool)
    → same_inode g f ≡ false
    → Keeps g fs (delete_withdrawn (removal_plan f fresh) gone)
unfolding delete_withdrawn
delete_withdrawn-Keeps g f fresh gone n = Keeps-check g _ _ (λ _ _. Keeps-check g _ _ (λ _ _.
    Keeps-check g _ _
      (λ _ _. unlink_quarantined-Keeps g f f.digest f.signature.size_bytes fresh n)))

perform_removal-Keeps :
    (g : File) {fs : Files} (f : File) (fresh : Bool)
    → same_inode g f ≡ false
    → Keeps g fs (perform_removal (removal_plan f fresh))
unfolding perform_removal
perform_removal-Keeps g f fresh n = Keeps-check g _ _ (λ _ _. Keeps-check g _ _ (λ c _.
    Keeps-check g _ _ (λ q _.
      Keeps-bind g (withdraw-Keeps g (removal_plan f fresh) c q)
        (λ gone fs'. delete_withdrawn-Keeps g f fresh gone n))))

-- Whatever files a removal finds and wherever the process ends in it, and whether it returns or
-- raises, each file that had a name still has one, with its inode and its digest, unless its inode is
-- that of the file to be removed.
perform_removal-is_kept :
    (g f : File) (fresh : Bool) (s : Run)
    → same_inode g f ≡ false
    → is_kept g s.files ≡ true
    → is_kept g (perform_removal (removal_plan f fresh) s).1.files ≡ true
perform_removal-is_kept g f fresh s n w =
    (perform_removal-Keeps g {fs = s.files} f fresh n).at s.events w
