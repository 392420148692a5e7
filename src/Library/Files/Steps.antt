-- ===== src/Library/Files/Steps.antt =====
-- The runs that collapse a doubled name, that capture an old file and that delete it.
use h2hdb_ingest.Prelude.{ℕ, Bool, true, false, Option, none, some, Result, ok, ◌≡◌, refl, ◌∙◌}
use h2hdb_ingest.Library.Files.{
  Signature, File, Files, Slot, in_current, in_quarantine, Error, same_content, touched, file_at,
  without,
}
use h2hdb_ingest.Library.Files.Capture.{
  heal_duplicate, quarantine_current, check_or_give_back, unlink_quarantined,
}
use h2hdb_ingest.Library.Files.Runs.{
  Runs, UnlinkStops, Runs-pure, Runs-check, Runs-renaming, Runs-unlinking, Runs-unlink,
}
use h2hdb_ingest.Library.Files.Checks.{verify_captured}
use h2hdb_ingest.Library.Files.Reads.{
  IsLinked, same_signature_refl, same_content_refl, same_content-touched, verify_regular-ok,
  require_exact-ok, require_metadata-ok, require_authority-renamed, verify_and_fsync-ok,
  verify_renamed-ok, verify_shared-ok, verify_captured-ok,
}
use h2hdb_ingest.Library.Files.Places.{
  files_of, same_at, touched-same_at, in_quarantine-IsLinked, in_current-IsLinked, captured-count,
  moved-capture, shared-capture, without-capture, without-retired,
}

-- what the process leaves if it ends in the capture of the file
pub record CaptureStops (E : Files → Type 0) (f : File) (s : Option File) : Type 0 where
  pub before : E (files_of s (some f) none)
  pub between : (t : ℕ) → E (files_of s (some (touched t f)) (some (touched t f)))
  pub after : (t : ℕ) → E (files_of s none (some (touched t f)))

module _ {steady : Bool} {E : Files → Type 0} where
  pub heal-Runs :
      (f : File) (expected : Signature) (src dst : Slot) {fs : Files}
      {Q : Signature → Files → Type 0}
      → same_content f.signature expected ≡ true
      → IsLinked 2 f src fs
      → IsLinked 2 f dst fs
      → UnlinkStops steady E src f fs
      → ((t : ℕ) → IsLinked 1 (touched t f) dst (without src f t fs))
      → ((t : ℕ) → file_at src (without src f t fs) ≡ none)
      → ((t : ℕ) → Q (touched t f).signature (without src f t fs))
      → Runs steady E fs Q (heal_duplicate f.digest f.signature.size_bytes expected src dst)
  unfolding heal_duplicate
  heal-Runs f expected src dst e l m k one n q =
      Runs-check _ _ (verify_shared-ok expected e src dst l m) (
        Runs-check _ _ (verify_shared-ok f.signature (same_content_refl f.signature) src dst l m) (
          Runs-check _ _ (simp (same_signature_refl f.signature)) (
            Runs-unlinking src _ l.at k (λ t. Runs-check _ _ (verify_and_fsync-ok (one t)) (
              Runs-check _ _ (simp (same_content-touched t f)) (
                Runs-check _ _ (simp (n t)) (
                  Runs-check _ _ (verify_regular-ok (one t)) (
                    Runs-check _ _ (simp (same_signature_refl (touched t f).signature)) (
                      Runs-check _ _ (require_metadata-ok (one t))
                        (Runs-pure (touched t f).signature (q t)))))))))))

  passed-Runs :
      {Q : Unit {0} → Files → Type 0} {fs : Files} (c : Files → Result Error (Unit {0}))
      → c fs ≡ ok tt
      → Q tt fs
      → Runs steady E fs Q (check_or_give_back c)
  unfolding check_or_give_back
  passed-Runs c e q = record { at = λ es w. rw e (w, q) }

  pub quarantine_current-Runs :
      (f : File) (s : Option File) (reuse : Bool) {Q : Unit {0} → Files → Type 0}
      → same_at f s ≡ false
      → CaptureStops E f s
      → ((t : ℕ) → Q tt (files_of s none (some (touched t f))))
      → Runs steady E
          (files_of s (some f) none)
          Q
          (quarantine_current f.digest f.signature.size_bytes f.signature reuse)
  unfolding quarantine_current
  quarantine_current-Runs f s reuse a k q =
      Runs-check _ _ (require_exact-ok (in_current-IsLinked a refl)) (
        Runs-check _ _ refl (
          Runs-renaming in_current in_quarantine _ refl refl
            (record {
              before = k.before;
              between = λ t. rw (shared-capture t f s a) (k.between t);
              after = λ t. rw (moved-capture t f s a) (k.after t);
            })
            (λ t. rw (moved-capture t f s a) (
              passed-Runs (verify_captured f.digest f.signature.size_bytes f.signature reuse)
                (verify_captured-ok f.signature (same_content-touched t f) reuse
                  (in_quarantine-IsLinked (touched-same_at t f s ∙ a) refl))
                (q t)))))

  pub heal_capture-Runs :
      (f : File) (expected : Signature) (s : Option File) {Q : Signature → Files → Type 0}
      → same_content f.signature expected ≡ true
      → same_at f s ≡ false
      → E (files_of s (some f) (some f))
      → ((t : ℕ) → E (files_of s none (some (touched t f))))
      → ((t : ℕ) → Q (touched t f).signature (files_of s none (some (touched t f))))
      → Runs steady E
          (files_of s (some f) (some f))
          Q
          (heal_duplicate f.digest f.signature.size_bytes expected in_current in_quarantine)
  heal_capture-Runs f expected s e a b k q =
      heal-Runs f expected in_current in_quarantine e
        (record { at = refl; count = captured-count f s a })
        (record { at = refl; count = captured-count f s a })
        (record { before = b; after = λ t. rw (without-capture t f s a) (k t) })
        (λ t.
          rw (without-capture t f s a) (in_quarantine-IsLinked (touched-same_at t f s ∙ a) refl))
        (λ t. refl) (λ t. rw (without-capture t f s a) (q t))

  -- the file that was captured is deleted
  pub unlink_quarantined-Runs :
      (f : File) (expected : Signature) (s c : Option File) (reuse : Bool)
      {Q : Unit {0} → Files → Type 0}
      → same_content f.signature expected ≡ true
      → same_at f s ≡ false
      → same_at f c ≡ false
      → E (files_of s c (some f))
      → E (files_of s c none)
      → Q tt (files_of s c none)
      → Runs steady E
          (files_of s c (some f))
          Q
          (unlink_quarantined f.digest f.signature.size_bytes expected reuse)
  unfolding unlink_quarantined
  unlink_quarantined-Runs f expected s c true e a b k k' q =
      let l : IsLinked 1 f in_quarantine (files_of s c (some f)) = in_quarantine-IsLinked a b in
      Runs-check _ _ refl (
        Runs-check _ _ (require_authority-renamed l expected e) (
          Runs-check _ _ (require_exact-ok l) (
            Runs-unlink in_quarantine refl
              (record { before = k; after = λ t. rw (without-retired t f s c a b) k' })
              (λ t. rw (without-retired t f s c a b) q))))
  unlink_quarantined-Runs f expected s c false e a b k k' q =
      let l : IsLinked 1 f in_quarantine (files_of s c (some f)) = in_quarantine-IsLinked a b in
      Runs-check _ _ refl (
        Runs-check _ _ (verify_renamed-ok l expected e) (
          Runs-check _ _ (verify_regular-ok l) (
            Runs-check _ _ (simp (same_signature_refl f.signature)) (
              Runs-unlink in_quarantine refl
                (record { before = k; after = λ t. rw (without-retired t f s c a b) k' })
                (λ t. rw (without-retired t f s c a b) q)))))

  -- nothing was captured, or its name is gone again
  pub unlink_nothing-Runs :
      (s c : Option File) (digest size : ℕ) (expected : Signature) (reuse : Bool)
      {Q : Unit {0} → Files → Type 0}
      → Q tt (files_of s c none)
      → Runs steady E (files_of s c none) Q (unlink_quarantined digest size expected reuse)
  unfolding unlink_quarantined
  unlink_nothing-Runs s c digest size expected reuse q = Runs-check _ _ refl (Runs-pure tt q)
