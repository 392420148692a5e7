-- ===== src/Library/State.antt =====
-- The state of ManagedFilesystemLibraryAdapter: the journal's rows, the ACTIVATING marker and the
-- locks that the calling thread holds. A method is an action: what it committed before it raised
-- stays committed.
pub mod Keeps
pub mod Yields
use h2hdb_ingest.Prelude.{
  ℕ, ◌^◌, Bool, true, false, not, ◌&&◌, ◌||◌, Option, none, some, List, [], ◌∷◌, Result, ok, err,
  ltb, leb, ◌==◌, if◌then◌else◌, is_some, same, ◌≡◌,
}
use h2hdb_ingest.Library.Tables.{
  Kind, Cursor, StorageKey, Identity, before, CurrentEntry, PendingEntry, PendingRemoval, greatest,
}

-- One constructor for each message with which the code raises.
pub data Error : Type 0 where
  bad_revision bad_receipt bad_token bad_digest bad_size bad_modified_at bad_key bad_limit : Error
  guard_required lock_required : Error
  corrupt_current_pair corrupt_pending_pair corrupt_phase corrupt_cursor : Error
  lacks_exact_membership incomplete_pending : Error
  older_revision another_unfinished other_pending_receipt other_installed_receipt : Error
  orphaned_marker foreign_marker state_changed : Error
  page_too_large malformed_item keys_not_increasing spool_not_open cursor_not_advanced : Error
  other_gid other_kind duplicate_resource cannot_seal : Error
  not_ready_to_reconcile changed_after_installation changed_after_removal : Error
  changed_during_reconciliation no_progress cursor_lost_activation : Error
  pending_changed corrupt_authority authorization_changed unsafe_path : Error
  lacks_staged_authority replacement_quarantine lost_staged_inode unavailable : Error
  page_not_bounded mixed_receipts lacks_token_authority staged_changed integrity : Error
  removal_authorization_changed removal_reappeared removal_changed : Error
  current_removal_changed completed_receipt_differs not_ready_for_completion : Error
  token_reused other_modified_at leaf_disagrees writing_inconsistent : Error
  installed_inconsistent lacks_current_authority slot_conflict protection_changed : Error
  release_other_artifact release_blocked unowned_stage release_inconsistent : Error
  released_other_modified_at unowned_temporary release_disappeared release_changed : Error
  cleanup_changed io_failed : Error

pub data Phase : Type 0 where
  idle open_spool sealed activating ready : Phase

pub data TokenState : Type 0 where
  writing staged installed released : TokenState

-- `{sha256(token)}{suffix}`: the hash stands for its token, the suffix for the resource kind
pub record Leaf : Type 0 where
  pub token : ℕ
  pub kind : Kind

-- a row of protection_tokens
pub record Token : Type 0 where
  pub token : ℕ
  pub key : StorageKey
  pub digest : ℕ
  pub size_bytes : ℕ
  pub modified_at : Option ℕ
  pub state : TokenState
  pub staging_leaf : Option Leaf
  pub identity : Option Identity

-- library_state and the other tables
pub record Journal : Type 0 where
  pub current_revision : Option ℕ
  pub current_receipt : Option ℕ
  pub pending_revision : Option ℕ
  pub pending_receipt : Option ℕ
  pub phase : Phase
  pub last_cursor : Option ℕ
  pub current_entries : List CurrentEntry
  pub pending_entries : List PendingEntry
  pub pending_removals : List PendingRemoval
  pub tokens : List Token

-- the file that tells readers that an activation is under way
pub data Marker : Type 0 where
  absent : Marker
  exact : ℕ → ℕ → Marker
  foreign : Marker

pub record Library : Type 0 where
  pub journal : Journal
  pub open journal use *
  pub marker : Marker
  pub guarded : Bool
  pub locked : Bool

-- A byte string that a caller passes: its length and its big-endian value.
pub record Bytes : Type 0 where
  pub size : ℕ
  pub value : ℕ

abbrev pub Exec : Type 0 → Type 0
Exec A = Library → Result Error A × Library

module _ {A : Type 0} where
  abbrev pub pure : A → Exec A
  pure a s = (ok a, s)

  abbrev pub raise : Error → Exec A
  raise e s = (err e, s)

  abbrev pub lift : Result Error A → Exec A
  lift r s = (r, s)

abbrev pub continue : {A B : Type 0} → Result Error A → (A → Exec B) → Exec B
continue (ok a) f s = f a s
continue (err e) f s = (err e, s)

infixl 5 ◌>>=◌ ◌>>◌
unfoldable pub ◌>>=◌ : {A B : Type 0} → Exec A → (A → Exec B) → Exec B
◌>>=◌ m f s = let (r, s') = m s in continue r f s'

abbrev pub ◌>>◌ : {B : Type 0} → Exec (Unit {0}) → Exec B → Exec B
m >> n = m >>= λ _. n

-- a transaction: all of its writes, or a rollback and the error
abbrev pub committed : Result Error Journal → Library → Result Error (Unit {0}) × Library
committed (ok j) s = (ok tt, record s { journal = j })
committed (err e) s = (err e, s)

unfoldable pub transaction : (Journal → Result Error Journal) → Exec (Unit {0})
transaction f s = committed (f s.journal) s

-- a transaction that also reads a value for the steps after it
abbrev pub committed_with :
    {A : Type 0} → Result Error (Journal × A) → Library → Result Error A × Library
committed_with (ok (j, a)) s = (ok a, record s { journal = j })
committed_with (err e) s = (err e, s)

unfoldable pub transaction_with : {A : Type 0} → (Journal → Result Error (Journal × A)) → Exec A
transaction_with f s = committed_with (f s.journal) s

-- `_revision`, `_size`: a positive signed int63
abbrev pub int63 : ℕ → Error → Result Error ℕ
int63 n e = if leb 1 n && ltb n (2 ^ 63) then ok n else err e

-- `_receipt`, `_digest`, `_token`: exactly `n` bytes
abbrev pub exact_bytes : ℕ → Error → Bytes → Result Error ℕ
exact_bytes n e b = if b.size == n then ok b.value else err e

unfoldable pub require_guard : Exec (Unit {0})
require_guard s = if s.guarded then (ok tt, s) else (err guard_required, s)

unfoldable pub require_publication_lock : Exec (Unit {0})
require_publication_lock s =
    if not s.guarded
    then (err guard_required, s)
    else if s.locked
    then (ok tt, s)
    else (err lock_required, s)

unfoldable pub acquire_publication_lock : Exec (Unit {0})
acquire_publication_lock s =
    if s.guarded then (ok tt, record s { locked = true }) else (err guard_required, s)

-- VNextLibraryActivationCursor of the h2hdb package: 33 bytes, read here as a number. The code
-- relies on the round trip, and on the byte order being that of the SQL columns.
pub record CursorCodec : Type 0 where
  pub to_bytes : Cursor → ℕ
  pub from_bytes : ℕ → Option Cursor
  pub decode : (c : Cursor) → from_bytes (to_bytes c) ≡ some c
  pub order : (a b : Cursor) → ltb (to_bytes a) (to_bytes b) ≡ before a b

pub data Status : Type 0 where
  spool reconcile ready_status complete_status : Status

-- LibraryActivationCheckpoint
pub record Checkpoint : Type 0 where
  pub revision : ℕ
  pub receipt : ℕ
  pub status : Status
  pub cursor : Option Cursor

abbrev pub is_idle : Phase → Bool
is_idle idle = true
is_idle _ = false

abbrev pub is_open : Phase → Bool
is_open open_spool = true
is_open _ = false

abbrev pub is_activating : Phase → Bool
is_activating activating = true
is_activating _ = false

abbrev pub is_ready : Phase → Bool
is_ready ready = true
is_ready _ = false

abbrev pub same_bool : Bool → Bool → Bool
same_bool true b = b
same_bool false b = not b

module _ (codec : CursorCodec) where
  open codec use {to_bytes, from_bytes}

  abbrev pub encode : Option Cursor → Option ℕ
  encode none = none
  encode (some c) = some (to_bytes c)

  -- a stored cursor belongs to an open phase and can be read
  abbrev pub readable_cursor : Phase → Option ℕ → Bool
  readable_cursor phase none = true
  readable_cursor phase (some b) = (is_open phase || is_activating phase) && is_some (from_bytes b)

  -- while the spool is open the cursor is its greatest entry
  abbrev pub exact_cursor : Journal → Bool
  exact_cursor j = elim j.pending_revision [
    | none ↦ true
    | some r ↦ not (is_open j.phase) || same j.last_cursor (encode (greatest r j.pending_entries))
  ]

  -- the checks of `_journal_state`
  unfoldable pub journal_state : Journal → Result Error (Unit {0})
  journal_state j =
      if not (same_bool (is_some j.current_revision) (is_some j.current_receipt))
      then err corrupt_current_pair
      else if not (same_bool (is_some j.pending_revision) (is_some j.pending_receipt))
      then err corrupt_pending_pair
      else if same_bool (is_idle j.phase) (is_some j.pending_revision)
      then err corrupt_phase
      else if not (readable_cursor j.phase j.last_cursor)
      then err corrupt_cursor
      else if exact_cursor j
      then ok tt
      else err lacks_exact_membership

  unfoldable pub check_journal : Exec (Unit {0})
  check_journal s = (journal_state s.journal, s)

  abbrev pub status_of : Phase → Result Error Status
  status_of idle = err corrupt_phase
  status_of open_spool = ok spool
  status_of sealed = ok reconcile
  status_of activating = ok reconcile
  status_of ready = ok ready_status

  abbrev pub cursor_of : Phase → Option ℕ → Result Error (Option Cursor)
  cursor_of ready c = ok none
  cursor_of phase none = ok none
  cursor_of phase (some b) = elim (from_bytes b) [
    | none ↦ err corrupt_cursor
    | some c ↦ ok (some c)
  ]

  -- `_checkpoint`
  unfoldable pub checkpoint : Journal → Result Error Checkpoint
  checkpoint j = elim j.pending_revision [
    | none ↦ err incomplete_pending
    | some r ↦ elim j.pending_receipt [
      | none ↦ err incomplete_pending
      | some p ↦ elim (status_of j.phase) [
        | err e ↦ err e
        | ok status ↦ elim (cursor_of j.phase j.last_cursor) [
          | err e ↦ err e
          | ok c ↦ ok (record { revision = r; receipt = p; status = status; cursor = c })
        ]
      ]
    ]
  ]
