-- ===== src/Library/Files/Attempts.antt =====
-- The attempts at the file operations of a page, each after a process that ended: the first has a
-- fresh authorization, and each later one finds `operation_started` in its row (library.py).
use h2hdb_ingest.Prelude.{
  Bool, true, false, Option, none, some, List, [], ◌∷◌, ◌++◌, Result, ok, err, ◌≡◌, arith,
}
use h2hdb_ingest.Library.Files.{Signature, File, Files, Error, stopped, Event, Run, Exec}
use h2hdb_ingest.Library.Files.Install.{install_staged, perform_install}
use h2hdb_ingest.Library.Files.Removal.{perform_removal}
use h2hdb_ingest.Library.Files.Runs.{Ends, Runs, Runs-bind, proceeds_all}
use h2hdb_ingest.Library.Files.Places.{files_of, same_at}
use h2hdb_ingest.Library.Files.Placed.{IsPlaced}
use h2hdb_ingest.Library.Files.Performed.{install_fresh-Runs, conclude-Runs}
use h2hdb_ingest.Library.Files.Recovered.{recovered-Runs}
use h2hdb_ingest.Library.Files.Withdrawn.{present-Runs, removed-Runs}
use h2hdb_ingest.Library.Files.Phases.{
  prepared, layout, IsRecoverable, IsInstalled, install_plan, IsRemovable, removal_plan,
}

abbrev next_attempt :
    {A : Type 0} → Exec A → List Event → Result Error A × Run → Result Error A × Run
next_attempt m es (ok a, s) = (ok a, s)
next_attempt m es (err e, s) = m (record { files = s.files; events = es })

abbrev later_attempts :
    {A : Type 0} → Exec A → List (List Event) → Result Error A × Run → Result Error A × Run
later_attempts m [] o = o
later_attempts m (es ∷ ess) o = later_attempts m ess (next_attempt m es o)

-- a first attempt, and later ones as long as none has returned
abbrev pub attempts :
    {A : Type 0} → Exec A → Exec A → List Event → List (List Event) → Files → Result Error A × Run
attempts first later es ess fs =
    later_attempts later ess (first (record { files = fs; events = es }))

abbrev pub install_attempts :
    File → Option File → List Event → List (List Event) → Files → Result Error Signature × Run
install_attempts new old =
    attempts (perform_install (install_plan new old true))
      (perform_install (install_plan new old false))

abbrev pub removal_attempts :
    File → List Event → List (List Event) → Files → Result Error (Unit {0}) × Run
removal_attempts f =
    attempts (perform_removal (removal_plan f true)) (perform_removal (removal_plan f false))

-- The operation has returned, or the process has ended where a later attempt can go on.
abbrev pub IsAttempted :
    {A : Type 0} → (Files → Type 0) → (A → Files → Type 0) → Result Error A × Run → Type 0
IsAttempted E Q (ok a, s) = Q a s.files
IsAttempted E Q (err e, s) = (e ≡ stopped) × E s.files

abbrev pub IsDone : {A : Type 0} → (A → Files → Type 0) → Result Error A × Run → Type 0
IsDone Q (ok a, s) = Q a s.files
IsDone Q (err e, s) = ⊥

module _ {A : Type 0} (E : Files → Type 0) (Q : A → Files → Type 0) where
  attempted : (o : Result Error A × Run) → Ends false E Q o → IsAttempted E Q o
  attempted (ok a, s) h = h.1
  attempted (err e, s) h = (h.0, h.2)

  done : (o : Result Error A × Run) → Ends true E Q o → IsDone Q o
  done (ok a, s) h = h.1
  done (err e, s) h = absurd (ground (arith, h.1))

  next-IsAttempted :
      (m : Exec A) (es : List Event) (o : Result Error A × Run)
      → ((fs : Files) → E fs → Runs false E fs Q m)
      → IsAttempted E Q o
      → IsAttempted E Q (next_attempt m es o)
  next-IsAttempted m es (ok a, s) k h = h
  next-IsAttempted m es (err e, s) k h =
      attempted (m (record { files = s.files; events = es })) ((k s.files h.1).at es tt)

  later-IsAttempted :
      (m : Exec A) (ess : List (List Event)) (o : Result Error A × Run)
      → ((fs : Files) → E fs → Runs false E fs Q m)
      → IsAttempted E Q o
      → IsAttempted E Q (later_attempts m ess o)
  later-IsAttempted m [] o k h = h
  later-IsAttempted m (es ∷ ess) o k h =
      later-IsAttempted m ess (next_attempt m es o) k (next-IsAttempted m es o k h)

  next-IsDone :
      (m : Exec A) (es : List Event) (o : Result Error A × Run)
      → ((fs : Files) → E fs → Runs true E fs Q m)
      → proceeds_all es ≡ true
      → IsAttempted E Q o
      → IsDone Q (next_attempt m es o)
  next-IsDone m es (ok a, s) k p h = h
  next-IsDone m es (err e, s) k p h =
      done (m (record { files = s.files; events = es })) ((k s.files h.1).at es p)

  later-IsDone :
      (m : Exec A) (es : List Event) (ess : List (List Event)) (o : Result Error A × Run)
      → ((steady : Bool) (fs : Files) → E fs → Runs steady E fs Q m)
      → proceeds_all es ≡ true
      → IsAttempted E Q o
      → IsDone Q (later_attempts m (ess ++ (es ∷ [])) o)
  later-IsDone m es [] o k p h = next-IsDone m es o (k true) p h
  later-IsDone m es (es' ∷ ess) o k p h =
      later-IsDone m es ess (next_attempt m es' o) k p (next-IsAttempted m es' o (k false) h)

  first-IsAttempted :
      (m : Exec A) (es : List Event) (fs : Files)
      → Runs false E fs Q m
      → IsAttempted E Q (m (record { files = fs; events = es }))
  first-IsAttempted m es fs k = attempted (m (record { files = fs; events = es })) (k.at es tt)

module _ (new : File) (old : Option File) (a : same_at new old ≡ false) (steady : Bool) where
  fresh-Runs :
      Runs steady
        (IsRecoverable new old)
        (layout new old prepared)
        (IsInstalled new)
        (perform_install (install_plan new old true))
  unfolding perform_install install_staged
  fresh-Runs =
      Runs-bind {R = IsPlaced new old}
        (record { at = λ es w. (install_fresh-Runs steady new old a).at es w })
        (conclude-Runs steady new old true a)

  again-Runs :
      (fs : Files)
      → IsRecoverable new old fs
      → Runs steady
          (IsRecoverable new old)
          fs
          (IsInstalled new)
          (perform_install (install_plan new old false))
  unfolding perform_install
  again-Runs fs r = rw r.at (
      Runs-bind {R = IsPlaced new old} (recovered-Runs steady new old r.phase a)
        (conclude-Runs steady new old false a))

-- no attempt raises, and each that ends leaves files from which the next goes on
install_attempts-IsAttempted :
    (new : File) (old : Option File) (es : List Event) (ess : List (List Event))
    → same_at new old ≡ false
    → IsAttempted
        (IsRecoverable new old)
        (IsInstalled new)
        (install_attempts new old es ess (files_of (some new) old none))
install_attempts-IsAttempted new old es ess a =
    later-IsAttempted (IsRecoverable new old) (IsInstalled new)
      (perform_install (install_plan new old false)) ess
      (perform_install (install_plan new old true)
        (record { files = files_of (some new) old none; events = es }))
      (again-Runs new old a false)
      (first-IsAttempted (IsRecoverable new old) (IsInstalled new)
        (perform_install (install_plan new old true)) es (files_of (some new) old none)
        (fresh-Runs new old a false))

-- However often the process ends in an installation, and wherever, no attempt raises, and each that
-- ends leaves files from which the next goes on; and one more attempt in which the process lives on
-- completes it. An attempt that returns has left the staged file under the current name, with the
-- signature that it returns, and no staged and no quarantined file. The staged file and the old one,
-- if there is one, are different inodes, and start in their places.
pub install_attempts-IsDone :
    (new : File) (old : Option File) (es : List Event) (ess : List (List Event)) (last : List Event)
    → same_at new old ≡ false
    → proceeds_all last ≡ true
    → IsAttempted
        (IsRecoverable new old)
        (IsInstalled new)
        (install_attempts new old es ess (files_of (some new) old none))
      × IsDone
          (IsInstalled new)
          (install_attempts new old es (ess ++ (last ∷ [])) (files_of (some new) old none))
install_attempts-IsDone new old es ess last a p = (
  install_attempts-IsAttempted new old es ess a,
  later-IsDone (IsRecoverable new old) (IsInstalled new)
      (perform_install (install_plan new old false)) last ess
      (perform_install (install_plan new old true)
        (record { files = files_of (some new) old none; events = es }))
      (again-Runs new old a) p (install_attempts-IsAttempted new old es [] a),
)

again-Runs_removal :
    (stage : Option File) (f : File) (steady : Bool)
    → same_at f stage ≡ false
    → (fs : Files) → IsRemovable stage f fs
    → Runs steady
        (IsRemovable stage f)
        fs
        (λ _ fs'. fs' ≡ files_of stage none none)
        (perform_removal (removal_plan f false))
again-Runs_removal stage f steady a fs r = rw r.at (removed-Runs steady stage f a r.phase)

-- After any attempts at a removal in which the process ended, wherever, one more in which it lives on
-- completes it: an attempt has returned, the file has neither its current name nor one in the
-- quarantine, and a staged file for the same name, which is another inode, is as it was.
pub removal_attempts-IsDone :
    (stage : Option File) (f : File) (es : List Event) (ess : List (List Event)) (last : List Event)
    → same_at f stage ≡ false
    → proceeds_all last ≡ true
    → IsDone
        (λ (_ : Unit {0}) fs. fs ≡ files_of stage none none)
        (removal_attempts f es (ess ++ (last ∷ [])) (files_of stage (some f) none))
removal_attempts-IsDone stage f es ess last a p =
    later-IsDone (IsRemovable stage f) (λ _ fs. fs ≡ files_of stage none none)
      (perform_removal (removal_plan f false)) last ess
      (perform_removal (removal_plan f true)
        (record { files = files_of stage (some f) none; events = es }))
      (λ steady. again-Runs_removal stage f steady a) p
      (first-IsAttempted (IsRemovable stage f) (λ _ fs. fs ≡ files_of stage none none)
        (perform_removal (removal_plan f true)) es (files_of stage (some f) none)
        (present-Runs false stage f a true))
