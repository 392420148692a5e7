-- ===== src/Library/Files.antt =====
-- The files of one storage key below the library root (library.py): its name below `current`, the
-- leaf of its staged replacement and the quarantine leaf of the bytes that it replaces, with the
-- renames and unlinks on them. Nobody else writes below the root, so a read that only guards
-- against another writer between two steps is left out, and a chain of directories is the one that
-- was opened.
use h2hdb_ingest.Prelude.{
  ℕ, zero, suc, ◌+◌, Bool, true, false, not, ◌&&◌, Option, none, some, List, [], ◌∷◌, Result, ok,
  err, ◌==◌, if◌then◌else◌,
}
use h2hdb_ingest.Library.Tables.{Identity, same_identity}
pub mod Checks
pub mod Capture
pub mod Install
pub mod Removal
pub mod Runs
pub mod Reads
pub mod Places
pub mod Steps
pub mod Phases
pub mod Captures
pub mod Placed
pub mod Performed
pub mod Recovered
pub mod Withdrawn
pub mod Attempts
pub mod Kept
pub mod Twins
pub mod Foreign
pub mod Safe
pub mod Spared

-- `_Signature`
pub record Signature : Type 0 where
  pub identity : Identity
  pub size_bytes : ℕ

-- an inode with its bytes, which are known by their digest
pub record File : Type 0 where
  pub signature : Signature
  pub digest : ℕ

pub record Files : Type 0 where
  pub stage : Option File
  pub current : Option File
  pub quarantine : Option File

pub data Slot : Type 0 where
  in_stage in_current in_quarantine : Slot

pub data Error : Type 0 where
  stopped file_exists not_found : Error
  unexpected_file changed_digest changed_authority changed_metadata : Error
  not_shared changed_links changed_identity retained_source : Error
  path_changed quarantine_occupied foreign_capture both_disappeared : Error
  retained_current changed_presence unknown_target authorities_disagree : Error
  lacks_staged_authority replacement_quarantine lost_staged_inode vanished : Error

-- What becomes of one rename or unlink: it is done, or the process ends before it, after it, or
-- with a rename of which the disk shows both names. Both directories of a rename are synced before
-- the next change, so only the latest change can be open. The number is the file's new change time.
pub data Event : Type 0 where
  proceeds stops_between stops_after : ℕ → Event
  stops_before : Event

pub record Run : Type 0 where
  pub files : Files
  pub events : List Event

abbrev pub Exec : Type 0 → Type 0
Exec A = Run → Result Error A × Run

abbrev pub continue : {A B : Type 0} → Result Error A → (A → Exec B) → Exec B
continue (ok a) f s = f a s
continue (err e) f s = (err e, s)

infixl 5 ◌>>=◌ ◌>>◌
unfoldable pub ◌>>=◌ : {A B : Type 0} → Exec A → (A → Exec B) → Exec B
◌>>=◌ m f s = let (r, s') = m s in continue r f s'

abbrev pub ◌>>◌ : {B : Type 0} → Exec (Unit {0}) → Exec B → Exec B
m >> n = m >>= λ _. n

module _ {A : Type 0} where
  abbrev pub pure : A → Exec A
  pure a s = (ok a, s)

  abbrev pub raise : Error → Exec A
  raise e s = (err e, s)

  -- a read of the files, which changes nothing
  unfoldable pub check : (Files → Result Error A) → Exec A
  check c s = (c s.files, s)

abbrev pub file_at : Slot → Files → Option File
file_at in_stage fs = fs.stage
file_at in_current fs = fs.current
file_at in_quarantine fs = fs.quarantine

abbrev pub put : Slot → Option File → Files → Files
put in_stage o fs = record fs { stage = o }
put in_current o fs = record fs { current = o }
put in_quarantine o fs = record fs { quarantine = o }

-- `_lstat_at`
abbrev pub lstat : Slot → Exec (Option File)
lstat slot = check (λ fs. ok (file_at slot fs))

-- `left == right`
unfoldable pub same_signature : Signature → Signature → Bool
same_signature a b = same_identity a.identity b.identity && a.size_bytes == b.size_bytes

-- `_same_content_identity`
unfoldable pub same_content : Signature → Signature → Bool
same_content a b =
    a.identity.device == b.identity.device
    && (a.identity.inode == b.identity.inode
        && (a.size_bytes == b.size_bytes && a.identity.modified_ns == b.identity.modified_ns))

unfoldable pub same_inode : File → File → Bool
same_inode f g =
    f.signature.identity.device == g.signature.identity.device
    && f.signature.identity.inode == g.signature.identity.inode

abbrev pub touched : ℕ → File → File
touched t f = record f {
  signature = record f.signature { identity = record f.signature.identity { changed_ns = t } };
}

abbrev pub touched_at : ℕ → File → Option File → Option File
touched_at t f none = none
touched_at t f (some g) = if same_inode f g then some (touched t g) else some g

-- a new change time under every name of the inode
abbrev touch : ℕ → File → Files → Files
touch t f fs = record {
  stage = touched_at t f fs.stage;
  current = touched_at t f fs.current;
  quarantine = touched_at t f fs.quarantine;
}

abbrev pub shared : Slot → File → ℕ → Files → Files
shared dst f t fs = put dst (some (touched t f)) (touch t f fs)

abbrev pub moved : Slot → Slot → File → ℕ → Files → Files
moved src dst f t fs = put dst (some (touched t f)) (put src none (touch t f fs))

-- the next event: where none is left, everything goes on
abbrev pub next_event : List Event → Event
next_event [] = proceeds 0
next_event (e ∷ es) = e

abbrev pub later_events : List Event → List Event
later_events [] = []
later_events (e ∷ es) = es

abbrev done_with : Files → List Event → Result Error (Unit {0}) × Run
done_with fs es = (ok tt, record { files = fs; events = es })

abbrev stopped_with : Files → List Event → Result Error (Unit {0}) × Run
stopped_with fs es = (err stopped, record { files = fs; events = es })

abbrev pub renamed : Slot → Slot → File → List Event → Files → Event → Result Error (Unit {0}) × Run
renamed src dst f es fs (proceeds t) = done_with (moved src dst f t fs) es
renamed src dst f es fs (stops_after t) = stopped_with (moved src dst f t fs) es
renamed src dst f es fs (stops_between t) = stopped_with (shared dst f t fs) es
renamed src dst f es fs stops_before = stopped_with fs es

abbrev pub rename_to : Slot → Slot → Option File → Option File → Run → Result Error (Unit {0}) × Run
rename_to src dst none target s = (err not_found, s)
rename_to src dst (some f) (some g) s = (err file_exists, s)
rename_to src dst (some f) none s =
    renamed src dst f (later_events s.events) s.files (next_event s.events)

-- `_rename_noreplace` and the sync of both directories
unfoldable pub rename : Slot → Slot → Exec (Unit {0})
rename src dst s = rename_to src dst (file_at src s.files) (file_at dst s.files) s

-- the names that are left of the file that had this one
abbrev pub without : Slot → File → ℕ → Files → Files
without slot f t fs = put slot none (touch t f fs)

abbrev pub unlinked : Slot → File → List Event → Files → Event → Result Error (Unit {0}) × Run
unlinked slot f es fs (proceeds t) = done_with (without slot f t fs) es
unlinked slot f es fs (stops_after t) = stopped_with (without slot f t fs) es
unlinked slot f es fs (stops_between t) = stopped_with fs es
unlinked slot f es fs stops_before = stopped_with fs es

abbrev pub unlink_at : Slot → Option File → Run → Result Error (Unit {0}) × Run
unlink_at slot none s = (err not_found, s)
unlink_at slot (some f) s = unlinked slot f (later_events s.events) s.files (next_event s.events)

-- `os.unlink` and the sync of the directory
unfoldable pub unlink : Slot → Exec (Unit {0})
unlink slot s = unlink_at slot (file_at slot s.files) s
