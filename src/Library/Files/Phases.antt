-- ===== src/Library/Files/Phases.antt =====
-- What a process that ends in an installation or in a removal can leave of the files of a key.
use h2hdb_ingest.Prelude.{ℕ, Bool, false, Option, none, some, ◌≡◌, refl, ◌∙◌, arith}
use h2hdb_ingest.Library.Files.{Signature, File, Files, same_content, same_inode, touched}
use h2hdb_ingest.Library.Files.Install.{FilePlan}
use h2hdb_ingest.Library.Files.Removal.{RemovalPlan}
use h2hdb_ingest.Library.Files.Places.{
  files_of, same_at, touched-same_at, same_inode-touched, same_inode-sym,
}

-- the plan by which a staged file replaces an old one, if there is one
abbrev pub install_plan : File → Option File → Bool → FilePlan
install_plan new old fresh = record {
  digest = new.digest;
  size_bytes = new.signature.size_bytes;
  staged = some new.signature;
  current = old;
  fresh_authorization = fresh;
}

abbrev pub removal_plan : File → Bool → RemovalPlan
removal_plan f fresh = record {
  digest = f.digest;
  signature = f.signature;
  fresh_authorization = fresh;
}

-- How far an installation has come: the two files, with a rename of which the disk shows both names
-- as a phase of its own.
pub data InstallPhase : Type 0 where
  prepared : InstallPhase
  captured_twice captured : ℕ → InstallPhase
  installed_twice installed : ℕ → ℕ → InstallPhase
  retired : ℕ → InstallPhase

abbrev pub touched_old : ℕ → Option File → Option File
touched_old t none = none
touched_old t (some f) = some (touched t f)

abbrev pub layout : File → Option File → InstallPhase → Files
layout new old prepared = files_of (some new) old none
layout new old (captured_twice t) = files_of (some new) (touched_old t old) (touched_old t old)
layout new old (captured t) = files_of (some new) none (touched_old t old)
layout new old (installed_twice t u) =
    files_of (some (touched u new)) (some (touched u new)) (touched_old t old)
layout new old (installed t u) = files_of none (some (touched u new)) (touched_old t old)
layout new old (retired u) = files_of none (some (touched u new)) none

-- the files are those of a phase
pub record IsRecoverable (new : File) (old : Option File) (fs : Files) : Type 0 where
  pub phase : InstallPhase
  pub at : fs ≡ layout new old phase

-- the staged file is what the current name has, and the only one
pub record IsInstalled (new : File) (signature : Signature) (fs : Files) : Type 0 where
  pub time : ℕ
  pub found : signature ≡ (touched time new).signature
  pub at : fs ≡ files_of none (some (touched time new)) none

-- what a process that ends in a removal leaves: the file is there, captured or gone
pub data RemovalPhase : Type 0 where
  present gone : RemovalPhase
  withdrawn_twice withdrawn : ℕ → RemovalPhase

abbrev pub removal_layout : Option File → File → RemovalPhase → Files
removal_layout stage f present = files_of stage (some f) none
removal_layout stage f (withdrawn_twice t) =
    files_of stage (some (touched t f)) (some (touched t f))
removal_layout stage f (withdrawn t) = files_of stage none (some (touched t f))
removal_layout stage f gone = files_of stage none none

pub record IsRemovable (stage : Option File) (f : File) (fs : Files) : Type 0 where
  pub phase : RemovalPhase
  pub at : fs ≡ removal_layout stage f phase

pub content-IsApart :
    (f g : File) → same_inode f g ≡ false → same_content f.signature g.signature ≡ false
unfolding same_inode same_content
content-IsApart f g e = ground arith

pub new-IsApart :
    (t u : ℕ) (new : File) (old : Option File)
    → same_at new old ≡ false
    → same_at (touched u new) (touched_old t old) ≡ false
new-IsApart t u new none e = refl
new-IsApart t u new (some f) e =
    touched-same_at u new (some (touched t f)) ∙ (same_inode-touched t new f ∙ e)

pub stage-IsApart :
    (t : ℕ) (new : File) (old : Option File)
    → same_at new old ≡ false
    → same_at new (touched_old t old) ≡ false
stage-IsApart t new none e = refl
stage-IsApart t new (some f) e = same_inode-touched t new f ∙ e

pub old-IsApart :
    (t : ℕ) (new old : File)
    → same_inode new old ≡ false
    → same_at (touched t old) (some new) ≡ false
old-IsApart t new old e = touched-same_at t old (some new) ∙ (same_inode-sym old new ∙ e)
