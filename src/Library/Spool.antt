-- ===== src/Library/Spool.antt =====
-- `activate_page` and `seal` of library.py: the open spool of an activation.
use h2hdb_ingest.Prelude.{
  ℕ, Bool, true, false, not, ◌&&◌, Option, none, some, List, [], ◌∷◌, Result, ok, err, ltb, ◌==◌,
  if◌then◌else◌, same, length,
}
use h2hdb_ingest.Library.Tables.{
  rank, Cursor, StorageKey, PendingEntry, pending_conflict, insert_pending,
}
use h2hdb_ingest.Library.State.{
  Error, sealed, Journal, Exec, lift, ◌>>=◌, ◌>>◌, transaction, require_publication_lock,
  CursorCodec, is_open, check_journal,
}
use h2hdb_ingest.Library.Marker.{max_page_items, revision_of}

-- INSERT INTO pending_entries, with an IntegrityError on a duplicate
unfoldable pub insert_entry : PendingEntry → Journal → Result Error Journal
insert_entry e j =
    if pending_conflict e j.pending_entries
    then err Error.duplicate_resource
    else ok (record j { pending_entries = insert_pending e j.pending_entries })

-- VNextLibraryActivationItem: what its own validation says, its key as the storage codec reads it,
-- and its modification time, `none` for a naive datetime
pub record Item : Type 0 where
  pub is_well_formed : Bool
  pub at : Cursor
  pub gid : ℕ
  pub key : Option StorageKey
  pub digest : ℕ
  pub size_bytes : ℕ
  pub modified_at : Option ℕ

abbrev pub entry_of : ℕ → Item → StorageKey → ℕ → PendingEntry
entry_of target i key modified = record {
  revision = target;
  at = i.at;
  artifact = record {
    key = key;
    digest = i.digest;
    size_bytes = i.size_bytes;
    modified_at = modified;
  };
  operation_started = false;
  activated = false;
  identity = none;
}

-- the body of the loop of `activate_page`
unfoldable pub append_item : ℕ → Item → Journal → Result Error Journal
append_item target i j = if not i.is_well_formed then err Error.malformed_item else elim i.key [
  | none ↦ err Error.bad_key
  | some key ↦
      if not (key.gid == i.gid)
      then err Error.other_gid
      else if not (rank key.kind == rank i.at.kind)
      then err Error.other_kind
      else elim i.modified_at [
        | none ↦ err Error.bad_modified_at
        | some modified ↦ insert_entry (entry_of target i key modified) j
      ]
]

abbrev pub then_journal :
    Result Error Journal → (Journal → Result Error Journal) → Result Error Journal
then_journal (ok j) f = f j
then_journal (err e) f = err e

unfoldable pub append_items : ℕ → List Item → Journal → Result Error Journal
append_items target [] j = ok j
append_items target (i ∷ is) j = then_journal (append_item target i j) (append_items target is)

abbrev pub last_item : Item → List Item → Item
last_item i [] = i
last_item i (k ∷ ks) = last_item k ks

module _ (codec : CursorCodec) where
  open codec use {to_bytes}

  -- any(_activation_key(left) >= _activation_key(right) for left, right in pairwise(page))
  unfoldable pub increasing : List Item → Bool
  increasing [] = true
  increasing (i ∷ []) = true
  increasing (i ∷ k ∷ ks) = ltb (to_bytes i.at) (to_bytes k.at) && increasing (k ∷ ks)

  abbrev pub advances : List Item → Option ℕ → Bool
  advances (i ∷ is) (some cursor) = ltb cursor (to_bytes i.at)
  advances _ _ = true

  abbrev pub with_cursor : List Item → Journal → Journal
  with_cursor [] j = j
  with_cursor (i ∷ is) j = record j { last_cursor = some (to_bytes (last_item i is).at) }

  abbrev pub spooled : List Item → Result Error Journal → Result Error Journal
  spooled page (ok j) = ok (with_cursor page j)
  spooled page (err e) = err e

  -- the transaction of `activate_page`, below its check that the spool is open
  unfoldable pub append_page : ℕ → List Item → Journal → Result Error Journal
  append_page target page j =
      if not (same j.pending_revision (some target) && is_open j.phase)
      then err Error.spool_not_open
      else if not (advances page j.last_cursor)
      then err Error.cursor_not_advanced
      else spooled page (append_items target page j)

  unfoldable pub activate_page : ℕ → List Item → Exec (Unit {0})
  activate_page revision page = do
    target ← lift (revision_of revision)
    lift (if ltb max_page_items (length page) then err Error.page_too_large else ok tt)
    lift (if increasing page then ok tt else err Error.keys_not_increasing)
    require_publication_lock
    check_journal codec
    transaction (append_page target page)

  unfoldable pub seal_journal : ℕ → Journal → Result Error Journal
  seal_journal target j =
      if same j.pending_revision (some target) && is_open j.phase
      then ok (record j { phase = sealed; last_cursor = none })
      else err Error.cannot_seal

  unfoldable pub seal : ℕ → Exec (Unit {0})
  seal revision = do
    target ← lift (revision_of revision)
    require_publication_lock
    transaction (seal_journal target)
