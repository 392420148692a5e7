-- ===== src/Library/Tables.antt =====
-- The tables of the activation journal (SCHEMA of _library_journal.py) and the statements of
-- library.py that read and write them. A table is the list of its rows in primary-key order, which
-- is the order of every ORDER BY in the code.
pub mod Lookup
use h2hdb_ingest.Prelude.{
  ℕ, Bool, true, false, not, ◌&&◌, ◌||◌, Option, none, some, List, [], ◌∷◌, ltb, ◌==◌,
  if◌then◌else◌, is_some,
}

pub data Kind : Type 0 where
  acquisition thumbnail : Kind

abbrev pub rank : Kind → ℕ
rank acquisition = 0
rank thumbnail = 1

-- (publication_key, resource_kind). A byte string of a fixed length is its big-endian value.
pub record Cursor : Type 0 where
  pub publication_key : ℕ
  pub kind : Kind

unfoldable pub same_cursor : Cursor → Cursor → Bool
same_cursor a b = a.publication_key == b.publication_key && rank a.kind == rank b.kind

-- ORDER BY publication_key, resource_kind
unfoldable pub before : Cursor → Cursor → Bool
before a b =
    ltb a.publication_key b.publication_key
    || (a.publication_key == b.publication_key && ltb (rank a.kind) (rank b.kind))

-- A storage key that the codec has validated is its gid and kind.
pub record StorageKey : Type 0 where
  pub gid : ℕ
  pub kind : Kind

-- storage_codec, storage_path, object_sha256, size_bytes, published_modified_at
pub record Artifact : Type 0 where
  pub key : StorageKey
  pub digest : ℕ
  pub size_bytes : ℕ
  pub modified_at : ℕ

-- device, inode, modified_ns, changed_ns: these columns are all null or all set
pub record Identity : Type 0 where
  pub device : ℕ
  pub inode : ℕ
  pub modified_ns : ℕ
  pub changed_ns : ℕ

pub record CurrentEntry : Type 0 where
  pub at : Cursor
  pub artifact : Artifact
  pub identity : Identity

pub record PendingEntry : Type 0 where
  pub revision : ℕ
  pub at : Cursor
  pub artifact : Artifact
  pub operation_started : Bool
  pub activated : Bool
  pub identity : Option Identity

pub record PendingRemoval : Type 0 where
  pub revision : ℕ
  pub at : Cursor
  pub artifact : Artifact
  pub identity : Identity
  pub operation_started : Bool

unfoldable pub same_key : StorageKey → StorageKey → Bool
same_key a b = a.gid == b.gid && rank a.kind == rank b.kind

unfoldable pub same_artifact : Artifact → Artifact → Bool
unfolding same_key
same_artifact a b =
    same_key a.key b.key
    && (a.digest == b.digest && (a.size_bytes == b.size_bytes && a.modified_at == b.modified_at))

-- the columns that an entry shares with a removal
unfoldable pub same_object : Artifact → Artifact → Bool
unfolding same_key
same_object a b = same_key a.key b.key && (a.digest == b.digest && a.size_bytes == b.size_bytes)

unfoldable pub same_identity : Identity → Identity → Bool
same_identity a b =
    a.device == b.device
    && (a.inode == b.inode && (a.modified_ns == b.modified_ns && a.changed_ns == b.changed_ns))

-- SELECT ... FROM current_entries WHERE publication_key = ? AND resource_kind = ?
unfoldable pub find_current : Cursor → List CurrentEntry → Option CurrentEntry
find_current c [] = none
find_current c (e ∷ es) = if same_cursor c e.at then some e else find_current c es

-- UNIQUE (gid, resource_kind) and UNIQUE (storage_path), against rows of another primary key
unfoldable pub current_conflict : CurrentEntry → List CurrentEntry → Bool
current_conflict e [] = false
current_conflict e (x ∷ xs) =
    not (same_cursor e.at x.at) && same_key e.artifact.key x.artifact.key || current_conflict e xs

-- INSERT ... ON CONFLICT (publication_key, resource_kind) DO UPDATE
unfoldable pub upsert_current : CurrentEntry → List CurrentEntry → List CurrentEntry
upsert_current e [] = e ∷ []
upsert_current e (x ∷ xs) =
    let rest = upsert_current e xs in
    if same_cursor e.at x.at then e ∷ xs else if before e.at x.at then e ∷ x ∷ xs else x ∷ rest

-- DELETE FROM current_entries WHERE publication_key = ? AND resource_kind = ?
unfoldable pub delete_current : Cursor → List CurrentEntry → List CurrentEntry
delete_current c [] = []
delete_current c (x ∷ xs) =
    let rest = delete_current c xs in if same_cursor c x.at then rest else x ∷ rest

-- SELECT ... FROM pending_entries WHERE activation_revision = ? AND publication_key = ? AND ...
unfoldable pub find_pending : ℕ → Cursor → List PendingEntry → Option PendingEntry
find_pending r c [] = none
find_pending r c (e ∷ es) =
    if e.revision == r && same_cursor c e.at then some e else find_pending r c es

-- the primary key and the two UNIQUE constraints of pending_entries
unfoldable pub pending_conflict : PendingEntry → List PendingEntry → Bool
pending_conflict e [] = false
pending_conflict e (x ∷ xs) =
    x.revision == e.revision && (same_cursor e.at x.at || same_key e.artifact.key x.artifact.key)
    || pending_conflict e xs

-- INSERT INTO pending_entries, at its place in the order of the primary key
unfoldable pub insert_pending : PendingEntry → List PendingEntry → List PendingEntry
insert_pending e [] = e ∷ []
insert_pending e (x ∷ xs) =
    let rest = insert_pending e xs in
    if ltb e.revision x.revision || (e.revision == x.revision && before e.at x.at)
    then e ∷ x ∷ xs
    else x ∷ rest

-- UPDATE pending_entries SET ... WHERE activation_revision = ? AND publication_key = ? AND ...
unfoldable pub update_pending :
    ℕ → Cursor → (PendingEntry → PendingEntry) → List PendingEntry → List PendingEntry
update_pending r c f [] = []
update_pending r c f (x ∷ xs) =
    (if x.revision == r && same_cursor c x.at then f x else x) ∷ update_pending r c f xs

-- SELECT ... WHERE activation_revision = ? AND activated = 0 ORDER BY ... LIMIT ?
unfoldable pub unactivated : ℕ → List PendingEntry → List PendingEntry
unactivated r [] = []
unactivated r (x ∷ xs) =
    let rest = unactivated r xs in if x.revision == r && not x.activated then x ∷ rest else rest

unfoldable pub later : Bool → Cursor → Option Cursor → Option Cursor
later false c o = o
later true c none = some c
later true c (some d) = if before d c then some c else some d

-- SELECT ... ORDER BY publication_key DESC, resource_kind DESC LIMIT 1
unfoldable pub greatest : ℕ → List PendingEntry → Option Cursor
unfolding later
greatest r [] = none
greatest r (x ∷ xs) = later (x.revision == r) x.at (greatest r xs)

-- current_entries with no pending entry of the revision under the same primary key
unfoldable pub stale : ℕ → List PendingEntry → List CurrentEntry → List CurrentEntry
stale r ps [] = []
stale r ps (x ∷ xs) =
    let rest = stale r ps xs in if is_some (find_pending r x.at ps) then rest else x ∷ rest

unfoldable pub find_removal : ℕ → Cursor → List PendingRemoval → Option PendingRemoval
find_removal r c [] = none
find_removal r c (e ∷ es) =
    if e.revision == r && same_cursor c e.at then some e else find_removal r c es

unfoldable pub removals_of : ℕ → List PendingRemoval → List PendingRemoval
removals_of r [] = []
removals_of r (x ∷ xs) = let rest = removals_of r xs in if x.revision == r then x ∷ rest else rest

unfoldable pub start_removal : ℕ → Cursor → List PendingRemoval → List PendingRemoval
start_removal r c [] = []
start_removal r c (x ∷ xs) =
    (if x.revision == r && same_cursor c x.at then record x { operation_started = true } else x)
    ∷ start_removal r c xs

unfoldable pub delete_removal : ℕ → Cursor → List PendingRemoval → List PendingRemoval
delete_removal r c [] = []
delete_removal r c (x ∷ xs) =
    let rest = delete_removal r c xs in
    if x.revision == r && same_cursor c x.at then rest else x ∷ rest
