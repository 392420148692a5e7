-- ===== src/Library/Files/Captures.antt =====
-- The capture of the old file in an installation, from every phase before the staged file is renamed.
use h2hdb_ingest.Prelude.{ℕ, Bool, false, Option, none, some, ◌≡◌, refl, ◌∙◌}
use h2hdb_ingest.Library.Files.{File, Files, touched, same_inode}
use h2hdb_ingest.Library.Files.Capture.{capture_replaced_current}
use h2hdb_ingest.Library.Files.Runs.{Runs, Runs-bind, Runs-pure, Runs-check, Runs-checked}
use h2hdb_ingest.Library.Files.Reads.{
  same_content-touched, require_exact-ok, fsync_recovered_capture-ok,
}
use h2hdb_ingest.Library.Files.Places.{
  files_of, same_inode-sym, in_quarantine-IsLinked, in_current-IsLinked,
}
use h2hdb_ingest.Library.Files.Steps.{CaptureStops, quarantine_current-Runs, heal_capture-Runs}
use h2hdb_ingest.Library.Files.Phases.{
  prepared, captured_twice, captured, IsRecoverable, old-IsApart, touched_old,
}

-- the old file is in the quarantine, and its name is free
pub record IsCaptured (new : File) (old : Option File) (fs : Files) : Type 0 where
  pub time : ℕ
  pub at : fs ≡ files_of (some new) none (touched_old time old)

module _ (steady : Bool) (new old : File) (apart : same_inode new old ≡ false) where
  prepared-CaptureStops : CaptureStops (IsRecoverable new (some old)) old (some new)
  prepared-CaptureStops = record {
    before = record { phase = prepared; at = refl };
    between = λ t. record { phase = captured_twice t; at = refl };
    after = λ t. record { phase = captured t; at = refl };
  }

  pub prepared-capture :
      (reuse : Bool)
      → Runs steady
          (IsRecoverable new (some old))
          (files_of (some new) (some old) none)
          (λ _ fs. IsCaptured new (some old) fs)
          (capture_replaced_current old.digest old.signature.size_bytes old.signature reuse)
  unfolding capture_replaced_current
  prepared-capture reuse = Runs-check _ _ refl (
      Runs-check _ _ refl (
        Runs-check _ _
          (require_exact-ok (in_current-IsLinked (same_inode-sym old new ∙ apart) refl))
          (quarantine_current-Runs old (some new) reuse (same_inode-sym old new ∙ apart)
            prepared-CaptureStops (λ t. record { time = t; at = refl }))))

  pub doubled-capture :
      (t : ℕ) (reuse : Bool)
      → Runs steady
          (IsRecoverable new (some old))
          (files_of (some new) (some (touched t old)) (some (touched t old)))
          (λ _ fs. IsCaptured new (some old) fs)
          (capture_replaced_current old.digest old.signature.size_bytes old.signature reuse)
  unfolding capture_replaced_current
  doubled-capture t reuse = Runs-check _ _ refl (
      Runs-check _ _ refl (
        Runs-bind {R = λ _ fs. IsCaptured new (some old) fs}
          (heal_capture-Runs (touched t old) old.signature (some new) (same_content-touched t old)
            (old-IsApart t new old apart) (record { phase = captured_twice t; at = refl })
            (λ u. record { phase = captured u; at = refl }) (λ u. record { time = u; at = refl }))
          (λ _ fs h. Runs-pure tt h)))

  pub replayed-capture :
      (t : ℕ) (reuse : Bool)
      → Runs steady
          (IsRecoverable new (some old))
          (files_of (some new) none (some (touched t old)))
          (λ _ fs. IsCaptured new (some old) fs)
          (capture_replaced_current old.digest old.signature.size_bytes old.signature reuse)
  unfolding capture_replaced_current
  replayed-capture t reuse = Runs-check _ _ refl (
      Runs-check _ _ refl (
        Runs-checked _
          (fsync_recovered_capture-ok old.signature (same_content-touched t old)
            (in_quarantine-IsLinked (old-IsApart t new old apart) refl) refl)
          (record { time = t; at = refl })))
