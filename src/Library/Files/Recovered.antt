-- ===== src/Library/Files/Recovered.antt =====
-- A later attempt at an installation, from every phase in which an earlier one can have ended.
use h2hdb_ingest.Prelude.{ℕ, Bool, false, Option, none, some, ok, ◌≡◌, refl, ◌∙◌, inl, inr}
use h2hdb_ingest.Library.Files.{File, Files, in_stage, in_current, touched}
use h2hdb_ingest.Library.Files.Install.{
  capture_known, rename_waiting, install_waiting, install_visible, install_staged,
  verify_quarantined_old,
}
use h2hdb_ingest.Library.Files.Runs.{Runs, Runs-bind, Runs-pure, Runs-check}
use h2hdb_ingest.Library.Files.Reads.{
  IsLinked, same_signature_refl, same_content_refl, same_content-touched, verify_regular-ok,
  verify_and_fsync-ok,
}
use h2hdb_ingest.Library.Files.Places.{
  files_of, same_at, touched-same_at, in_stage-IsLinked, in_current-IsLinked,
}
use h2hdb_ingest.Library.Files.Captures.{
  IsCaptured, prepared-capture, doubled-capture, replayed-capture,
}
use h2hdb_ingest.Library.Files.Placed.{
  IsPlaced, rename_waiting-Runs, heal_install-Runs, install_renamed-Runs, quarantined_old-ok,
  quarantined_none-ok,
}
use h2hdb_ingest.Library.Files.Phases.{
  InstallPhase, prepared, captured_twice, captured, installed_twice, installed, retired, layout,
  IsRecoverable, touched_old, install_plan, new-IsApart, stage-IsApart, content-IsApart,
}

module _ (steady : Bool) (new : File) where
  -- what follows the capture
  waited-Runs :
      (old : Option File)
      → same_at new old ≡ false
      → (fs : Files) → IsCaptured new old fs
      → Runs steady
          (IsRecoverable new old)
          fs
          (IsPlaced new old)
          (rename_waiting (install_plan new old false) new.signature)
  waited-Runs old a fs c = rw c.at (rename_waiting-Runs steady new old a c.time)

  waiting-Runs :
      (old : Option File) (fs : Files) (found : Option File)
      → same_at new old ≡ false
      → IsLinked 1 new in_stage fs
      → Runs steady
          (IsRecoverable new old)
          fs
          (λ _ fs'. IsCaptured new old fs')
          (capture_known old found)
      → Runs steady
          (IsRecoverable new old)
          fs
          (IsPlaced new old)
          (install_waiting (install_plan new old false) new.signature found)
  unfolding install_waiting
  waiting-Runs old fs found a l k = Runs-check _ _ (verify_regular-ok l) (
      Runs-check _ _ (simp (same_signature_refl new.signature))
        (Runs-bind {R = λ _ fs'. IsCaptured new old fs'} k (λ _ fs' c. waited-Runs old a fs' c)))

  -- the current name alone has the staged file
  visible-Runs :
      (old : Option File) (u : ℕ) (q : Option File)
      → same_at (touched u new) q ≡ false
      → verify_quarantined_old old q (files_of none (some (touched u new)) q) ≡ ok tt
      → same_at new old ≡ false
      → IsPlaced new old (touched u new).signature (files_of none (some (touched u new)) q)
      → Runs steady
          (IsRecoverable new old)
          (files_of none (some (touched u new)) q)
          (IsPlaced new old)
          (install_visible (install_plan new old false) new.signature)
  unfolding install_visible
  visible-Runs old u q a v b p = record {
    at = λ es w.
        let l : IsLinked 1 (touched u new) in_current (files_of none (some (touched u new)) q) =
          in_current-IsLinked refl a in
        rw (verify_and_fsync-ok l, same_content-touched u new)
          ((install_renamed-Runs steady new old b u q a v p).at es w);
  }

  pub recovered-Runs :
      (old : Option File) (phase : InstallPhase)
      → same_at new old ≡ false
      → Runs steady
          (IsRecoverable new old)
          (layout new old phase)
          (IsPlaced new old)
          (install_staged (install_plan new old false) new.signature)
  unfolding install_staged
  recovered-Runs none prepared a = record {
    at = λ es w.
        (waiting-Runs none _ none a (in_stage-IsLinked {f = new} refl refl)
            (Runs-pure tt (record { time = 0; at = refl }))).at
          es w;
  }
  recovered-Runs (some f) prepared a = record {
    at = λ es w. rw (same_content_refl f.signature) (
        (waiting-Runs (some f) _ (some f) a (in_stage-IsLinked {f = new} a refl)
            (prepared-capture steady new f a false)).at
          es w);
  }
  recovered-Runs none (captured_twice t) a = record {
    at = λ es w.
        (waiting-Runs none _ none a (in_stage-IsLinked {f = new} refl refl)
            (Runs-pure tt (record { time = 0; at = refl }))).at
          es w;
  }
  recovered-Runs (some f) (captured_twice t) a = record {
    at = λ es w. rw (same_content-touched t f) (
        (waiting-Runs (some f) _ (some (touched t f)) a
            (in_stage-IsLinked {f = new} (stage-IsApart t new (some f) a)
              (stage-IsApart t new (some f) a))
            (doubled-capture steady new f a t false)).at
          es w);
  }
  recovered-Runs none (captured t) a = record {
    at = λ es w.
        (waiting-Runs none _ none a (in_stage-IsLinked {f = new} refl refl)
            (Runs-pure tt (record { time = 0; at = refl }))).at
          es w;
  }
  recovered-Runs (some f) (captured t) a = record {
    at = λ es w.
        (waiting-Runs (some f) _ none a
            (in_stage-IsLinked {f = new} refl (stage-IsApart t new (some f) a))
            (replayed-capture steady new f a t false)).at
          es w;
  }
  recovered-Runs none (installed_twice t u) a = record {
    at = λ es w. (heal_install-Runs steady new none a t u).at es w;
  }
  recovered-Runs (some f) (installed_twice t u) a = record {
    at = λ es w.
        rw (content-IsApart (touched u new) f (touched-same_at u new (some f) ∙ a))
          ((heal_install-Runs steady new (some f) a t u).at es w);
  }
  recovered-Runs old (installed t u) a = record {
    at = λ es w.
        (visible-Runs old u (touched_old t old) (new-IsApart t u new old a)
            (quarantined_old-ok t u new old a) a
            (record { time = u; found = refl; at = inl (t, refl) })).at
          es w;
  }
  recovered-Runs old (retired u) a = record {
    at = λ es w.
        (visible-Runs old u none refl (quarantined_none-ok old _) a
            (record { time = u; found = refl; at = inr refl })).at
          es w;
  }
