-- ===== src/Library/Files/Withdrawn.antt =====
-- One attempt at a removal, from every phase in which an earlier one can have ended (`_perform_pending_removal` of
-- library.py).
use h2hdb_ingest.Prelude.{Bool, true, false, ℕ, Option, none, some, ok, ◌≡◌, refl, if◌then◌else◌}
use h2hdb_ingest.Library.Files.{File, touched}
use h2hdb_ingest.Library.Files.Removal.{delete_withdrawn, perform_removal}
use h2hdb_ingest.Library.Files.Runs.{Runs, Runs-bind, Runs-pure, Runs-check}
use h2hdb_ingest.Library.Files.Checks.{require_fresh}
use h2hdb_ingest.Library.Files.Reads.{
  same_content-touched, require_exact-ok, fsync_recovered_capture-ok,
  fsync_recovered_capture-absent,
}
use h2hdb_ingest.Library.Files.Places.{
  files_of, same_at, touched-same_at, in_quarantine-IsLinked, in_current-IsLinked,
}
use h2hdb_ingest.Library.Files.Steps.{
  CaptureStops, quarantine_current-Runs, heal_capture-Runs, unlink_quarantined-Runs,
  unlink_nothing-Runs,
}
use h2hdb_ingest.Library.Files.Phases.{
  RemovalPhase, present, withdrawn_twice, withdrawn, gone, removal_layout, IsRemovable,
  removal_plan,
}

require_fresh-ok :
    (f : File) (s : Option File)
    → same_at f s ≡ false
    → require_fresh f.signature (files_of s (some f) none) ≡ ok tt
unfolding require_fresh
require_fresh-ok f s a =
    simp (require_exact-ok (in_current-IsLinked {f = f} {s = s} {q = none} a refl))

module _ (steady : Bool) (s : Option File) (f : File) (a : same_at f s ≡ false) where
  unlink_withdrawn-Runs :
      (t : ℕ) (fresh : Bool)
      → Runs steady
          (IsRemovable s f)
          (removal_layout s f (withdrawn t))
          (λ _ fs. fs ≡ files_of s none none)
          (delete_withdrawn (removal_plan f fresh) false)
  unfolding delete_withdrawn
  unlink_withdrawn-Runs t fresh = Runs-check _ _ refl (
      Runs-check _ _ refl (
        Runs-check _ _ refl (
          unlink_quarantined-Runs (touched t f) f.signature s none fresh (same_content-touched t f)
            (rw (touched-same_at t f s) a) refl (record { phase = withdrawn t; at = refl })
            (record { phase = gone; at = refl }) refl)))

  unlink_found-Runs :
      (t : ℕ)
      → Runs steady
          (IsRemovable s f)
          (removal_layout s f (withdrawn t))
          (λ _ fs. fs ≡ files_of s none none)
          (delete_withdrawn (removal_plan f false) true)
  unfolding delete_withdrawn
  unlink_found-Runs t = Runs-check _ _ refl (
      Runs-check _ _ refl (
        Runs-check _ _
          (fsync_recovered_capture-ok f.signature (same_content-touched t f)
            (in_quarantine-IsLinked {f = touched t f} (rw (touched-same_at t f s) a) refl) refl)
          (unlink_quarantined-Runs (touched t f) f.signature s none false (same_content-touched t f)
            (rw (touched-same_at t f s) a) refl (record { phase = withdrawn t; at = refl })
            (record { phase = gone; at = refl }) refl)))

  present-CaptureStops : CaptureStops (IsRemovable s f) f s
  present-CaptureStops = record {
    before = record { phase = present; at = refl };
    between = λ t. record { phase = withdrawn_twice t; at = refl };
    after = λ t. record { phase = withdrawn t; at = refl };
  }

  nothing-Runs :
      Runs steady
        (IsRemovable s f)
        (removal_layout s f gone)
        (λ _ fs. fs ≡ files_of s none none)
        (delete_withdrawn (removal_plan f false) true)
  unfolding delete_withdrawn
  nothing-Runs = Runs-check _ _ refl (
      Runs-check _ _ refl (
        Runs-check _ _
          (fsync_recovered_capture-absent (removal_layout s f gone) f.digest f.signature.size_bytes
            f.signature refl refl)
          (unlink_nothing-Runs s none f.digest f.signature.size_bytes f.signature false refl)))

  -- the file is still there
  pub present-Runs :
      (fresh : Bool)
      → Runs steady
          (IsRemovable s f)
          (removal_layout s f present)
          (λ _ fs. fs ≡ files_of s none none)
          (perform_removal (removal_plan f fresh))
  unfolding perform_removal
  present-Runs fresh = Runs-check _ _ (present-authorized fresh) (
      Runs-check _ _ refl (
        Runs-check _ _ refl (
          Runs-bind {R = λ b fs. (b ≡ false) × (t : ℕ) × (fs ≡ removal_layout s f (withdrawn t))}
            (Runs-bind {R = λ _ fs. (t : ℕ) × (fs ≡ removal_layout s f (withdrawn t))}
              (Runs-check _ _
                (require_exact-ok (in_current-IsLinked {f = f} {s = s} {q = none} a refl))
                (quarantine_current-Runs f s fresh a present-CaptureStops (λ t. (t, refl))))
              (λ _ fs h. Runs-pure false (refl, h.0, h.1)))
            (λ b fs h. rw (h.0, h.2) (unlink_withdrawn-Runs h.1 fresh)))))
    where
      present-authorized :
          (fresh : Bool)
          → (if fresh then require_fresh f.signature (files_of s (some f) none) else ok tt) ≡ ok tt
      present-authorized true = require_fresh-ok f s a
      present-authorized false = refl

  -- a later attempt
  pub removed-Runs :
      (phase : RemovalPhase)
      → Runs steady
          (IsRemovable s f)
          (removal_layout s f phase)
          (λ _ fs. fs ≡ files_of s none none)
          (perform_removal (removal_plan f false))
  unfolding perform_removal
  removed-Runs present = present-Runs false
  removed-Runs (withdrawn_twice t) = Runs-check _ _ refl (
      Runs-check _ _ refl (
        Runs-check _ _ refl (
          Runs-bind {R = λ b fs. (b ≡ true) × (u : ℕ) × (fs ≡ removal_layout s f (withdrawn u))}
            (Runs-bind {R = λ _ fs. (u : ℕ) × (fs ≡ removal_layout s f (withdrawn u))}
              (Runs-bind {R = λ _ fs. (u : ℕ) × (fs ≡ removal_layout s f (withdrawn u))}
                (heal_capture-Runs (touched t f) f.signature s (same_content-touched t f)
                  (rw (touched-same_at t f s) a) (record { phase = withdrawn_twice t; at = refl })
                  (λ u. record { phase = withdrawn u; at = refl }) (λ u. (u, refl)))
                (λ _ fs h. Runs-pure tt h))
              (λ _ fs h. Runs-pure true (refl, h.0, h.1)))
            (λ b fs h. rw (h.0, h.2) (unlink_found-Runs h.1)))))
  removed-Runs (withdrawn t) = Runs-check _ _ refl (
      Runs-check _ _ refl (
        Runs-check _ _ refl (
          Runs-bind {R = λ b fs. (b ≡ true) × (fs ≡ removal_layout s f (withdrawn t))}
            (Runs-pure true (refl, refl)) (λ b fs h. rw (h.0, h.1) (unlink_found-Runs t)))))
  removed-Runs gone = Runs-check _ _ refl (
      Runs-check _ _ refl (
        Runs-check _ _ refl (
          Runs-bind {R = λ b fs. (b ≡ true) × (fs ≡ removal_layout s f gone)}
            (Runs-pure true (refl, refl)) (λ b fs h. rw (h.0, h.1) nothing-Runs))))
