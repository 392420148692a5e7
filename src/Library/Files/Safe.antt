-- ===== src/Library/Files/Safe.antt =====
-- An installation and a removal, from any files: no file is lost but the old one of the plan.
use h2hdb_ingest.Prelude.{ℕ, Bool, true, false, Option, none, some, Result, err, ◌≡◌, if◌then◌else◌}
use h2hdb_ingest.Library.Files.{
  Signature, File, Files, in_stage, in_current, Error, Run, raise, same_inode,
}
use h2hdb_ingest.Library.Files.Capture.{capture_found, capture_replaced_current, unlink_quarantined}
use h2hdb_ingest.Library.Files.Install.{
  FilePlan, capture_fresh, capture_known, rename_fresh, rename_waiting, install_fresh_staged,
  install_waiting, install_renamed, install_visible, install_found, heal_install, install_staged,
  retire_old, conclude, perform_unchanged, perform_with, perform_install,
}
use h2hdb_ingest.Library.Files.Places.{same_at}
use h2hdb_ingest.Library.Files.Kept.{
  is_kept, Keeps, Keeps-bind, Keeps-check, Keeps-checked, Keeps-pure, Keeps-rename,
}
use h2hdb_ingest.Library.Files.Foreign.{
  heal_capture-Keeps, heal_install-Keeps, unlink_found-Keeps, quarantine_current-Keeps,
}

module _ (g : File) {fs : Files} where
  raise-Keeps : {A : Type 0} (e : Error) → Keeps g fs (raise {A = A} e)
  raise-Keeps e = record { at = λ es w. w }

  capture_found-Keeps :
      (digest size : ℕ) (expected : Signature) (reuse : Bool) (q c : Option File)
      → Keeps g fs (capture_found digest size expected reuse q c)
  capture_found-Keeps digest size expected reuse (some q) (some c) =
      Keeps-bind g (heal_capture-Keeps g digest size expected) (λ _ fs'. Keeps-pure g tt)
  capture_found-Keeps digest size expected reuse (some q) none = Keeps-checked g _
  capture_found-Keeps digest size expected reuse none none = raise-Keeps Error.both_disappeared
  capture_found-Keeps digest size expected reuse none (some c) =
      Keeps-check g _ _ (λ _ _. quarantine_current-Keeps g digest size expected reuse)

  capture_replaced_current-Keeps :
      (digest size : ℕ) (expected : Signature) (reuse : Bool)
      → Keeps g fs (capture_replaced_current digest size expected reuse)
  unfolding capture_replaced_current
  capture_replaced_current-Keeps digest size expected reuse =
      Keeps-check g _ _
        (λ q _. Keeps-check g _ _ (λ c _. capture_found-Keeps digest size expected reuse q c))

  pub unlink_quarantined-Keeps :
      (old : File) (digest size : ℕ) (reuse : Bool)
      → same_inode g old ≡ false
      → Keeps g fs (unlink_quarantined digest size old.signature reuse)
  unfolding unlink_quarantined
  unlink_quarantined-Keeps old digest size reuse n =
      Keeps-check g _ _ (λ o _. unlink_found-Keeps g old digest size reuse o n)

  capture_fresh-Keeps : (old found : Option File) → Keeps g fs (capture_fresh old found)
  capture_fresh-Keeps (some old) (some c) =
      Keeps-check g _ _ (λ _ _.
        capture_replaced_current-Keeps old.digest old.signature.size_bytes old.signature true)
  capture_fresh-Keeps (some old) none = raise-Keeps Error.path_changed
  capture_fresh-Keeps none (some c) = raise-Keeps Error.unknown_target
  capture_fresh-Keeps none none = Keeps-pure g tt

  capture_known-Keeps : (old found : Option File) → Keeps g fs (capture_known old found)
  capture_known-Keeps (some old) found =
      capture_replaced_current-Keeps old.digest old.signature.size_bytes old.signature false
  capture_known-Keeps none (some c) = raise-Keeps Error.unknown_target
  capture_known-Keeps none none = Keeps-pure g tt

  rename_fresh-Keeps :
      (plan : FilePlan) (staged : Signature) → Keeps g fs (rename_fresh plan staged)
  unfolding rename_fresh
  rename_fresh-Keeps plan staged = Keeps-check g _ _ (λ _ _. Keeps-check g _ _ (λ _ _.
      Keeps-bind g (Keeps-rename g in_stage in_current)
        (λ _ fs'. Keeps-check g _ _ (λ a _. Keeps-check g _ _ (λ _ _. Keeps-pure g a)))))

  rename_waiting-Keeps :
      (plan : FilePlan) (staged : Signature) → Keeps g fs (rename_waiting plan staged)
  unfolding rename_waiting
  rename_waiting-Keeps plan staged = Keeps-check g _ _ (λ _ _. Keeps-check g _ _ (λ _ _.
      Keeps-check g _ _ (λ _ _. Keeps-bind g (Keeps-rename g in_stage in_current) (λ _ fs'.
        Keeps-check g _ _
          (λ a _. Keeps-check g _ _ (λ _ _. Keeps-check g _ _ (λ _ _. Keeps-pure g a)))))))

module _ (g : File) (plan : FilePlan) (staged : Signature) where
  install_fresh_staged-Keeps : {fs : Files} → Keeps g fs (install_fresh_staged plan staged)
  unfolding install_fresh_staged
  install_fresh_staged-Keeps = Keeps-check g _ _ (λ _ _. Keeps-check g _ _ (λ found _.
      Keeps-bind g (capture_fresh-Keeps g plan.current found)
        (λ _ fs'. rename_fresh-Keeps g plan staged)))

  install_waiting-Keeps :
      {fs : Files} (found : Option File) → Keeps g fs (install_waiting plan staged found)
  unfolding install_waiting
  install_waiting-Keeps found = Keeps-check g _ _ (λ _ _. Keeps-check g _ _ (λ _ _.
      Keeps-bind g (capture_known-Keeps g plan.current found)
        (λ _ fs'. rename_waiting-Keeps g plan staged)))

  install_renamed-Keeps : {fs : Files} → Keeps g fs (install_renamed plan staged)
  unfolding install_renamed
  install_renamed-Keeps = Keeps-check g _ _ (λ _ _. Keeps-check g _ _ (λ _ _.
      Keeps-check g _ _
        (λ _ _. Keeps-check g _ _ (λ a _. Keeps-check g _ _ (λ _ _. Keeps-pure g a)))))

either-is_kept :
    {A : Type 0} (g : File) (b : Bool) (x y : Result Error A × Run)
    → is_kept g x.1.files ≡ true
    → is_kept g y.1.files ≡ true
    → is_kept g (if b then x else y).1.files ≡ true
either-is_kept g true x y p q = p
either-is_kept g false x y p q = q

module _ (g : File) (plan : FilePlan) (staged : Signature) where
  install_visible-Keeps : {fs : Files} → Keeps g fs (install_visible plan staged)
  unfolding install_visible
  install_visible-Keeps {fs} = record {
    at = λ es w.
        let s : Run = record { files = fs; events = es } in
        either-is_kept g _ (install_renamed plan staged s) (err Error.authorities_disagree, s)
          ((install_renamed-Keeps g plan staged {fs = fs}).at es w) w;
  }

  install_found-Keeps :
      {fs : Files} (c o : Option File) → Keeps g fs (install_found plan staged c o)
  install_found-Keeps {fs} (some c) (some o) = record {
    at = λ es w.
        let s : Run = record { files = fs; events = es } in
        either-is_kept g _ (heal_install plan staged s) (install_waiting plan staged (some c) s)
          ((heal_install-Keeps g {fs = fs} plan.digest plan.size_bytes staged).at es w)
          ((install_waiting-Keeps g plan staged {fs = fs} (some c)).at es w);
  }
  install_found-Keeps {fs} (some c) none = record {
    at = λ es w. (install_visible-Keeps {fs = fs}).at es w;
  }
  install_found-Keeps {fs} none none = record { at = λ es w. w }
  install_found-Keeps {fs} none (some o) = record {
    at = λ es w. (install_waiting-Keeps g plan staged {fs = fs} none).at es w;
  }

  install_staged-Keeps : {fs : Files} → Keeps g fs (install_staged plan staged)
  unfolding install_staged
  install_staged-Keeps {fs} = record {
    at = λ es w.
        let s : Run = record { files = fs; events = es } in
        either-is_kept g plan.fresh_authorization (install_fresh_staged plan staged s)
          (install_found plan staged fs.current fs.stage s)
          ((install_fresh_staged-Keeps g plan staged {fs = fs}).at es w)
          ((install_found-Keeps {fs = fs} fs.current fs.stage).at es w);
  }

retire_old-Keeps :
    (g : File) {fs : Files} (old : Option File) (fresh : Bool)
    → same_at g old ≡ false
    → Keeps g fs (retire_old old fresh)
retire_old-Keeps g none fresh n = Keeps-pure g tt
retire_old-Keeps g (some old) fresh n =
    unlink_quarantined-Keeps g old old.digest old.signature.size_bytes fresh n

conclude-Keeps :
    (g : File) {fs : Files} (plan : FilePlan) (staged signature : Signature)
    → same_at g plan.current ≡ false
    → Keeps g fs (conclude plan staged signature)
unfolding conclude
conclude-Keeps g plan staged signature n =
    Keeps-bind g (retire_old-Keeps g plan.current plan.fresh_authorization n)
      (λ _ fs'. Keeps-check g _ _ (λ a _. Keeps-check g _ _ (λ _ _. Keeps-pure g a)))

perform_unchanged-Keeps :
    (g : File) {fs : Files} (plan : FilePlan) (old : Option File)
    → Keeps g fs (perform_unchanged plan old)
perform_unchanged-Keeps g plan none = raise-Keeps g Error.lacks_staged_authority
perform_unchanged-Keeps g plan (some old) =
    Keeps-bind g (Keeps-bind g (Keeps-checked g _) (λ _ fs'. Keeps-checked g _))
      (λ _ fs'. Keeps-checked g _)

perform_with-Keeps :
    (g : File) {fs : Files} (plan : FilePlan) (staged : Option Signature)
    → same_at g plan.current ≡ false
    → Keeps g fs (perform_with plan staged)
perform_with-Keeps g plan none n = perform_unchanged-Keeps g plan plan.current
perform_with-Keeps g plan (some staged) n =
    Keeps-bind g (install_staged-Keeps g plan staged) (λ a fs'. conclude-Keeps g plan staged a n)

-- Whatever files an installation finds and wherever the process ends in it, and whether it returns or
-- raises, each file that had a name still has one, with its inode and its digest, unless its inode is
-- that of the plan's old file: nothing else is deleted, and nothing is overwritten.
pub perform_install-is_kept :
    (g : File) (plan : FilePlan) (s : Run)
    → same_at g plan.current ≡ false
    → is_kept g s.files ≡ true
    → is_kept g (perform_install plan s).1.files ≡ true
unfolding perform_install
perform_install-is_kept g plan s n w =
    (perform_with-Keeps g {fs = s.files} plan plan.staged n).at s.events w
