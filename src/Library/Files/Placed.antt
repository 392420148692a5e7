-- ===== src/Library/Files/Placed.antt =====
-- The rename of the staged file, its replay, and what follows it.
use h2hdb_ingest.Prelude.{ℕ, Bool, true, false, Option, none, some, ok, ◌≡◌, refl, ◌∙◌, inl, ◌⊎◌}
use h2hdb_ingest.Library.Files.{
  Signature, File, Files, in_stage, in_current, in_quarantine, touched,
}
use h2hdb_ingest.Library.Files.Install.{
  rename_fresh, rename_waiting, install_renamed, verify_quarantined_old, retire_old,
}
use h2hdb_ingest.Library.Files.Capture.{heal_duplicate}
use h2hdb_ingest.Library.Files.Runs.{Runs, RenameStops, Runs-pure, Runs-check, Runs-renaming}
use h2hdb_ingest.Library.Files.Reads.{
  IsLinked, same_signature_refl, same_content-touched, verify_regular-ok, require_authority-ok,
  require_authority-renamed, verify_and_fsync-ok, verify_renamed-ok, fsync_recovered_install-ok,
}
use h2hdb_ingest.Library.Files.Places.{
  files_of, same_at, in_stage-IsLinked, in_current-IsLinked, in_quarantine-IsLinked,
  installed-count, moved-install, shared-install, without-install, touched-same_at,
}
use h2hdb_ingest.Library.Files.Steps.{heal-Runs, unlink_quarantined-Runs, unlink_nothing-Runs}
use h2hdb_ingest.Library.Files.Phases.{
  captured, installed_twice, installed, retired, layout, IsRecoverable, touched_old, install_plan,
  new-IsApart, stage-IsApart, old-IsApart,
}

-- the staged file has the current name; the old one may wait in the quarantine
pub record IsPlaced (new : File) (old : Option File) (signature : Signature) (fs : Files)
    : Type 0 where
  pub time : ℕ
  pub found : signature ≡ (touched time new).signature
  pub at :
      ((t : ℕ) × (fs ≡ layout new old (installed t time))) ⊎ (fs ≡ layout new old (retired time))

module _ (steady : Bool) (new : File) (old : Option File) (apart : same_at new old ≡ false) where
  install-RenameStops :
      (t : ℕ)
      → RenameStops steady
          (IsRecoverable new old)
          in_stage
          in_current
          new
          (layout new old (captured t))
  install-RenameStops t = record {
    before = record { phase = captured t; at = refl };
    between = λ u. record {
      phase = installed_twice t u;
      at = shared-install u new (touched_old t old) (stage-IsApart t new old apart);
    };
    after = λ u. record {
      phase = installed t u;
      at = moved-install u new (touched_old t old) (stage-IsApart t new old apart);
    };
  }

  pub rename_waiting-Runs :
      (t : ℕ)
      → Runs steady
          (IsRecoverable new old)
          (layout new old (captured t))
          (IsPlaced new old)
          (rename_waiting (install_plan new old false) new.signature)
  unfolding rename_waiting
  rename_waiting-Runs t =
      let l : IsLinked 1 new in_stage (layout new old (captured t)) =
        in_stage-IsLinked refl (stage-IsApart t new old apart) in
      Runs-check _ _ refl (
        Runs-check _ _ (verify_regular-ok l) (
          Runs-check _ _ (simp (same_signature_refl new.signature)) (
            Runs-renaming in_stage in_current _ refl refl (install-RenameStops t) (λ u.
              rw (moved-install u new (touched_old t old) (stage-IsApart t new old apart)) (
                let m : IsLinked 1 (touched u new) in_current (layout new old (installed t u)) =
                  in_current-IsLinked refl (new-IsApart t u new old apart) in
                Runs-check _ _ (verify_regular-ok m) (
                  Runs-check _ _ (simp (same_content-touched u new)) (
                    Runs-check _ _ refl
                      (Runs-pure _ (record { time = u; found = refl; at = inl (t, refl) })))))))))

  pub rename_fresh-Runs :
      (t : ℕ)
      → Runs steady
          (IsRecoverable new old)
          (layout new old (captured t))
          (IsPlaced new old)
          (rename_fresh (install_plan new old true) new.signature)
  unfolding rename_fresh
  rename_fresh-Runs t =
      let l : IsLinked 1 new in_stage (layout new old (captured t)) =
        in_stage-IsLinked refl (stage-IsApart t new old apart) in
      Runs-check _ _ refl (
        Runs-check _ _ (require_authority-ok l) (
          Runs-renaming in_stage in_current _ refl refl (install-RenameStops t) (λ u.
            rw (moved-install u new (touched_old t old) (stage-IsApart t new old apart)) (
              let m : IsLinked 1 (touched u new) in_current (layout new old (installed t u)) =
                in_current-IsLinked refl (new-IsApart t u new old apart) in
              Runs-check _ _
                (require_authority-renamed m new.signature (same_content-touched u new))
                (Runs-check _ _ refl
                  (Runs-pure _ (record { time = u; found = refl; at = inl (t, refl) })))))))

  -- both names of the staged file are there
  pub heal_install-Runs :
      (t u : ℕ)
      → Runs steady
          (IsRecoverable new old)
          (layout new old (installed_twice t u))
          (IsPlaced new old)
          (heal_duplicate new.digest new.signature.size_bytes new.signature in_stage in_current)
  heal_install-Runs t u =
      let a = new-IsApart t u new old apart in
      let g = touched u new in
      let q = touched_old t old in
      heal-Runs g new.signature in_stage in_current (same_content-touched u new)
        (record { at = refl; count = installed-count g q a })
        (record { at = refl; count = installed-count g q a })
        (record {
          before = record { phase = installed_twice t u; at = refl };
          after = λ v. record { phase = installed t v; at = without-install v g q a };
        })
        (λ v.
          rw (without-install v g q a) (in_current-IsLinked refl (new-IsApart t v new old apart)))
        (λ v. refl)
        (λ v. rw (without-install v g q a) (record { time = v; found = refl; at = inl (t, refl) }))

  -- the current name has the staged file, and the quarantine has passed
  pub install_renamed-Runs :
      (u : ℕ) (q : Option File)
      → same_at (touched u new) q ≡ false
      → verify_quarantined_old old q (files_of none (some (touched u new)) q) ≡ ok tt
      → IsPlaced new old (touched u new).signature (files_of none (some (touched u new)) q)
      → Runs steady
          (IsRecoverable new old)
          (files_of none (some (touched u new)) q)
          (IsPlaced new old)
          (install_renamed (install_plan new old false) new.signature)
  unfolding install_renamed
  install_renamed-Runs u q a v h =
      let m : IsLinked 1 (touched u new) in_current (files_of none (some (touched u new)) q) =
        in_current-IsLinked refl a in
      Runs-check _ _ refl (
        Runs-check _ _ v (
          Runs-check _ _
            (fsync_recovered_install-ok new.signature (same_content-touched u new) m refl)
            (Runs-check _ _ (verify_and_fsync-ok m)
              (Runs-check _ _ (simp (same_content-touched u new)) (Runs-pure _ h)))))

pub quarantined_old-ok :
    (t u : ℕ) (new : File) (old : Option File)
    → same_at new old ≡ false
    → verify_quarantined_old old
        (touched_old t old)
        (files_of none (some (touched u new)) (touched_old t old))
      ≡ ok tt
quarantined_old-ok t u new none a = refl
quarantined_old-ok t u new (some f) a =
    let m : IsLinked 1 (touched t f) in_quarantine
        (files_of none (some (touched u new)) (some (touched t f))) =
      in_quarantine-IsLinked refl
        (old-IsApart t (touched u new) f (touched-same_at u new (some f) ∙ a)) in
    simp (verify_renamed-ok m f.signature (same_content-touched t f))

pub quarantined_none-ok :
    (old : Option File) (fs : Files) → verify_quarantined_old old none fs ≡ ok tt
quarantined_none-ok none fs = refl
quarantined_none-ok (some f) fs = refl

module _ (steady : Bool) (new : File) where
  -- the old file is deleted, if it is still there
  pub retire_old-Runs :
      (old : Option File) (t u : ℕ) (fresh : Bool)
      → same_at new old ≡ false
      → Runs steady
          (IsRecoverable new old)
          (layout new old (installed t u))
          (λ _ fs. fs ≡ layout new old (retired u))
          (retire_old old fresh)
  retire_old-Runs none t u fresh a = Runs-pure tt refl
  retire_old-Runs (some f) t u fresh a =
      unlink_quarantined-Runs (touched t f) f.signature none (some (touched u new)) fresh
        (same_content-touched t f) refl
        (old-IsApart t (touched u new) f (touched-same_at u new (some f) ∙ a))
        (record { phase = installed t u; at = refl }) (record { phase = retired u; at = refl }) refl

  pub retire_none-Runs :
      (old : Option File) (u : ℕ) (fresh : Bool)
      → Runs steady
          (IsRecoverable new old)
          (layout new old (retired u))
          (λ _ fs. fs ≡ layout new old (retired u))
          (retire_old old fresh)
  retire_none-Runs none u fresh = Runs-pure tt refl
  retire_none-Runs (some f) u fresh =
      unlink_nothing-Runs none (some (touched u new)) f.digest f.signature.size_bytes f.signature
        fresh refl
