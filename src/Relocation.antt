-- ===== src/Relocation.antt =====
-- The verification of a library that was moved to another mount (library_relocation.py): the rows of
-- the journal about one storage path, and the files that they can mean.
use h2hdb_ingest.Prelude.{
  ℕ, zero, suc, Bool, true, false, not, ◌&&◌, Option, none, some, List, [], ◌∷◌, Result, ok, err,
  ltb, ◌==◌, if◌then◌else◌, is_some,
}
use h2hdb_ingest.Library.Tables.{
  StorageKey, Artifact, Identity, CurrentEntry, PendingEntry, PendingRemoval, same_identity,
}
use h2hdb_ingest.Library.State.{TokenState, Token}
use h2hdb_ingest.Library.Files.{Signature, File}
pub mod Rows
pub mod Bind
pub mod Resolve
pub mod Verified
pub mod Stages
pub mod Resolved

-- where a file can stand: below `current`, in the quarantine of a digest, or in the staging of a token
pub data Place : Type 0 where
  at_current : Place
  at_quarantine at_stage at_temporary : ℕ → Place

pub data Table : Type 0 where
  current_entries pending_entries pending_removals protection_tokens : Table

pub data Error : Type 0 where
  duplicate_authority disappeared invalid_content unsafe_leaf : Error
  removal_disagrees activation_disagrees ambiguous_stage hash_mismatch unexpected_authority : Error
  lacks_authority lacks_capture ambiguous_duplicate ambiguous_replacement missing_files : Error
  unknown_file missing_stage retained_authority incomplete_mapping original_disagrees : Error
  unreadable : Error

-- ObservedFile: the signature and the digest of what has the name, if anything has. Its old signature
-- is the original one of its binding.
pub record Observed : Type 0 where
  pub place : Place
  pub found : Option File

-- The rows about one storage path; `_rows` reads at most one from each table.
pub record Group : Type 0 where
  pub current : Option CurrentEntry
  pub pending : Option PendingEntry
  pub removal : Option PendingRemoval
  pub token : Option Token

-- a row with its content and its saved signature, and the file whose signature takes its place
pub record Binding : Type 0 where
  pub table : Table
  pub digest : ℕ
  pub size_bytes : ℕ
  pub original : Option Signature
  pub destination : Observed

-- `_matches`
abbrev pub matches : Option File → ℕ → ℕ → Bool
matches none digest size = false
matches (some f) digest size = f.digest == digest && f.signature.size_bytes == size

-- what runs after a call, if that returns
infixl 5 ◌>>=◌
unfoldable pub ◌>>=◌ : {A B : Type 0} → Result Error A → (A → Result Error B) → Result Error B
err e >>= next = err e
ok a >>= next = next a

abbrev pub signature_of : ℕ → Identity → Signature
signature_of size i = record { identity = i; size_bytes = size }

-- `_signature`
abbrev pub signature : ℕ → Option Identity → Option Signature
signature size none = none
signature size (some i) = some (signature_of size i)

-- `same_inode` of a Signature
unfoldable pub same_content : Signature → Signature → Bool
same_content a b =
    a.identity.device == b.identity.device
    && (a.identity.inode == b.identity.inode
        && (a.size_bytes == b.size_bytes && a.identity.modified_ns == b.identity.modified_ns))

unfoldable pub require : Bool → Error → Result Error (Unit {0})
require b e = if b then ok tt else err e

-- what a read of a place gives; a name may also be unreadable, or too large
abbrev pub Reader : Type 0
Reader = Place → ℕ → Result Error (Option File)

abbrev pub seen : Place → Result Error (Option File) → Result Error Observed
seen p (ok f) = ok (record { place = p; found = f })
seen p (err e) = err e

unfoldable pub observe : Reader → Place → ℕ → Result Error Observed
observe read p maximum = seen p (read p maximum)
