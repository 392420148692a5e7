-- ===== src/Library/Files/Checks.antt =====
-- The checks of library.py on the files of a key: those that only read, and those that sync what
-- they have read.
use h2hdb_ingest.Prelude.{
  ℕ, ◌+◌, Bool, true, false, ◌&&◌, Option, none, some, Result, ok, err, ◌==◌, if◌then◌else◌,
  is_some,
}
use h2hdb_ingest.Library.Files.{
  Signature, File, Files, Slot, Error, file_at, same_signature, same_content, same_inode,
}

abbrev Check : Type 0 → Type 0
Check A = Files → Result Error A

abbrev and_then : {A B : Type 0} → Result Error A → (A → Result Error B) → Result Error B
and_then (ok a) f = f a
and_then (err e) f = err e

infixl 5 ◌>>=◌ ◌>>◌
abbrev pub ◌>>=◌ : {A B : Type 0} → Check A → (A → Check B) → Check B
◌>>=◌ c f fs = and_then (c fs) (λ a. f a fs)

abbrev pub ◌>>◌ : {B : Type 0} → Check (Unit {0}) → Check B → Check B
c >> d = c >>= λ _. d

abbrev pub pure : {A : Type 0} → A → Check A
pure a fs = ok a

abbrev pub require : Bool → Error → Check (Unit {0})
require b e fs = if b then ok tt else err e

-- `st_nlink`, of the names that the library gives
abbrev pub link_at : File → Option File → ℕ
link_at f none = 0
link_at f (some g) = if same_inode f g then 1 else 0

unfoldable pub links : File → Files → ℕ
links f fs = link_at f fs.stage + link_at f fs.current + link_at f fs.quarantine

abbrev regular : ℕ → ℕ → Option File → Result Error Signature
regular digest size none = err Error.unexpected_file
regular digest size (some f) =
    if f.signature.size_bytes == size
    then if f.digest == digest then ok f.signature else err Error.changed_digest
    else err Error.unexpected_file

-- `_verify_regular_at`
unfoldable pub verify_regular : ℕ → ℕ → Slot → Check Signature
verify_regular digest size slot fs = regular digest size (file_at slot fs)

abbrev pub named : Signature → ℕ → Option File → Files → Result Error (Unit {0})
named expected n none fs = err Error.vanished
named expected n (some f) fs =
    if same_signature f.signature expected && links f fs == n
    then ok tt
    else err Error.changed_metadata

-- `_require_managed_file_metadata`, of what `_lstat_at` has found
unfoldable pub require_metadata : Signature → Slot → Check (Unit {0})
require_metadata expected slot fs = named expected 1 (file_at slot fs) fs

abbrev pub authority : ℕ → Signature → Bool → Option File → Files → Result Error Signature
authority size expected allow_renamed none fs = err Error.changed_authority
authority size expected allow_renamed (some f) fs =
    if f.signature.size_bytes == size
      && (links f fs == 1
          && (if allow_renamed
              then same_content f.signature expected
              else same_signature f.signature expected))
    then ok f.signature
    else err Error.changed_authority

-- `_require_regular_authority_at`
unfoldable pub require_authority : ℕ → Signature → Bool → Slot → Check Signature
require_authority size expected allow_renamed slot fs =
    authority size expected allow_renamed (file_at slot fs) fs

abbrev pub require_absent : Slot → Error → Check (Unit {0})
require_absent slot e fs = if is_some (file_at slot fs) then err e else ok tt

-- `_verify_and_fsync_file_at`, `_verify_current`
unfoldable pub verify_and_fsync : ℕ → ℕ → Slot → Check Signature
verify_and_fsync digest size slot = do
  verified ← verify_regular digest size slot
  require_metadata verified slot
  pure verified

-- `_verify_quarantined`
unfoldable pub verify_renamed : ℕ → ℕ → Signature → Slot → Check Signature
verify_renamed digest size expected slot = do
  verified ← verify_regular digest size slot
  require (same_content verified expected) Error.changed_identity
  require_metadata verified slot
  pure verified

unfoldable pub require_shared : Signature → Slot → Check (Unit {0})
require_shared expected slot fs = named expected 2 (file_at slot fs) fs

-- `_verify_same_inode_rename_names`
unfoldable pub verify_shared : ℕ → ℕ → Signature → Slot → Slot → Check Signature
verify_shared digest size expected src dst = do
  source ← verify_regular digest size src
  destination ← verify_regular digest size dst
  require (same_signature source destination) Error.not_shared
  require (same_content source expected) Error.changed_identity
  require_shared source dst
  require_shared source src
  pure source

abbrev presence : Bool → Bool → Result Error (Unit {0})
presence true found = if found then ok tt else err Error.changed_presence
presence false found = if found then err Error.changed_presence else ok tt

abbrev require_presence : Bool → Slot → Check (Unit {0})
require_presence expected slot fs = presence expected (is_some (file_at slot fs))

unfoldable pub fsync_renamed : ℕ → ℕ → Signature → Slot → Check (Unit {0})
fsync_renamed digest size expected slot = do
  verified ← verify_and_fsync digest size slot
  require (same_content verified expected) Error.changed_identity
  require_metadata verified slot
  durable ← verify_regular digest size slot
  require (same_signature durable verified) Error.path_changed
  require_metadata durable slot

abbrev when : Bool → Check (Unit {0}) → Check (Unit {0})
when b c fs = if b then c fs else ok tt

-- `_fsync_recovered_capture`, with what is expected below the quarantine
unfoldable pub fsync_recovered_capture : ℕ → ℕ → Signature → Bool → Check (Unit {0})
fsync_recovered_capture digest size expected quarantine_present = do
  require_absent Slot.in_current Error.retained_current
  require_presence quarantine_present Slot.in_quarantine
  when quarantine_present (fsync_renamed digest size expected Slot.in_quarantine)

-- `_fsync_recovered_install`
unfoldable pub fsync_recovered_install : ℕ → ℕ → Signature → Check (Unit {0})
fsync_recovered_install digest size staged = do
  require_absent Slot.in_stage Error.retained_source
  verified ← verify_and_fsync digest size Slot.in_current
  require (same_content verified staged) Error.changed_identity
  durable ← verify_regular digest size Slot.in_current
  require (same_signature durable verified) Error.path_changed

abbrev capture_authority : ℕ → ℕ → Signature → Bool → Check Signature
capture_authority digest size expected reuse_verified_digest fs =
    if reuse_verified_digest
    then require_authority size expected true Slot.in_quarantine fs
    else verify_regular digest size Slot.in_quarantine fs

-- what `_quarantine_current` verifies after its rename
unfoldable pub verify_captured : ℕ → ℕ → Signature → Bool → Check (Unit {0})
verify_captured digest size expected reuse_verified_digest = do
  captured ← capture_authority digest size expected reuse_verified_digest
  require_metadata captured Slot.in_quarantine
  require (same_content captured expected) Error.changed_identity

abbrev exact : Signature → Option File → Result Error (Unit {0})
exact expected none = err Error.path_changed
exact expected (some f) =
    if same_signature f.signature expected then ok tt else err Error.path_changed

unfoldable pub require_exact : Signature → Slot → Check (Unit {0})
require_exact expected slot fs = exact expected (file_at slot fs)

-- what a fresh authorization of a removal wants
unfoldable pub require_fresh : Signature → Check (Unit {0})
require_fresh expected = do
  require_exact expected Slot.in_current
  require_absent Slot.in_quarantine Error.path_changed
