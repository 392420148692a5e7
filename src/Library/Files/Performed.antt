-- ===== src/Library/Files/Performed.antt =====
-- One attempt at an installation, from every phase in which an earlier one can have ended.
use h2hdb_ingest.Prelude.{ℕ, Bool, true, false, Option, none, some, ◌≡◌, refl, ◌∙◌, inl, inr}
use h2hdb_ingest.Library.Files.{Signature, File, Files, touched}
use h2hdb_ingest.Library.Files.Install.{rename_fresh, install_fresh_staged, retire_old, conclude}
use h2hdb_ingest.Library.Files.Runs.{Runs, Runs-bind, Runs-pure, Runs-check}
use h2hdb_ingest.Library.Files.Reads.{same_content-touched, require_exact-ok, require_authority-ok}
use h2hdb_ingest.Library.Files.Places.{
  same_at, in_stage-IsLinked, in_current-IsLinked, same_inode-sym,
}
use h2hdb_ingest.Library.Files.Captures.{IsCaptured, prepared-capture}
use h2hdb_ingest.Library.Files.Placed.{
  IsPlaced, rename_fresh-Runs, retire_old-Runs, retire_none-Runs,
}
use h2hdb_ingest.Library.Files.Phases.{
  prepared, retired, layout, IsRecoverable, IsInstalled, install_plan,
}

module _ (steady : Bool) (new : File) where
  -- what is done after the installation of the staged file
  concluded-Runs :
      (old : Option File) (u : ℕ) (fresh : Bool) {fs : Files}
      → Runs steady
          (IsRecoverable new old)
          fs
          (λ _ fs'. fs' ≡ layout new old (retired u))
          (retire_old old fresh)
      → Runs steady
          (IsRecoverable new old)
          fs
          (IsInstalled new)
          (conclude (install_plan new old fresh) new.signature (touched u new).signature)
  unfolding conclude
  concluded-Runs old u fresh k =
      Runs-bind {R = λ _ fs'. fs' ≡ layout new old (retired u)} k (λ _ fs' e. rw e (
        Runs-check _ _ (require_authority-ok (in_current-IsLinked {f = touched u new} refl refl)) (
          Runs-check _ _ (simp (same_content-touched u new))
            (Runs-pure _ (record { time = u; found = refl; at = refl })))))

  pub conclude-Runs :
      (old : Option File) (fresh : Bool)
      → same_at new old ≡ false
      → (signature : Signature) (fs : Files) → IsPlaced new old signature fs
      → Runs steady
          (IsRecoverable new old)
          fs
          (IsInstalled new)
          (conclude (install_plan new old fresh) new.signature signature)
  conclude-Runs old fresh a signature fs p = rw p.found (elim p.at [
    | inl (t, e) ↦
        rw e (concluded-Runs old p.time fresh (retire_old-Runs steady new old t p.time fresh a))
    | inr e ↦ rw e (concluded-Runs old p.time fresh (retire_none-Runs steady new old p.time fresh))
  ])

  -- what follows the capture
  waited_fresh-Runs :
      (old : Option File)
      → same_at new old ≡ false
      → (fs : Files) → IsCaptured new old fs
      → Runs steady
          (IsRecoverable new old)
          fs
          (IsPlaced new old)
          (rename_fresh (install_plan new old true) new.signature)
  waited_fresh-Runs old a fs c = rw c.at (rename_fresh-Runs steady new old a c.time)

  pub install_fresh-Runs :
      (old : Option File)
      → same_at new old ≡ false
      → Runs steady
          (IsRecoverable new old)
          (layout new old prepared)
          (IsPlaced new old)
          (install_fresh_staged (install_plan new old true) new.signature)
  unfolding install_fresh_staged
  install_fresh-Runs none a =
      Runs-check _ _ (require_authority-ok (in_stage-IsLinked {f = new} refl refl)) (
        Runs-check _ _ refl (
          Runs-bind {R = λ _ fs. IsCaptured new none fs}
            (Runs-pure tt (record { time = 0; at = refl }))
            (λ _ fs c. waited_fresh-Runs none a fs c)))
  install_fresh-Runs (some f) a =
      Runs-check _ _ (require_authority-ok (in_stage-IsLinked {f = new} a refl)) (
        Runs-check _ _ refl (
          Runs-bind {R = λ _ fs. IsCaptured new (some f) fs}
            (Runs-check _ _
              (require_exact-ok (in_current-IsLinked {f = f} (same_inode-sym f new ∙ a) refl))
              (prepared-capture steady new f a true))
            (λ _ fs c. waited_fresh-Runs (some f) a fs c)))
