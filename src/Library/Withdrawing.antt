-- ===== src/Library/Withdrawing.antt =====
-- The transactions of `release` (library.py) on the table of protection tokens.
use h2hdb_ingest.Prelude.{
  ℕ, Bool, true, false, not, ◌&&◌, ◌||◌, Option, none, some, List, [], ◌∷◌, Result, ok, err, ◌==◌,
  if◌then◌else◌, is_some,
}
use h2hdb_ingest.Library.Tables.{StorageKey, Identity, same_key, PendingEntry}
use h2hdb_ingest.Library.State.{Error, released, Leaf, Token, Journal, CursorCodec, journal_state}
use h2hdb_ingest.Library.Install.{same_leaf}
use h2hdb_ingest.Library.Cleanup.{is_released}
use h2hdb_ingest.Library.Protection.{
  find_token, is_object_of, is_writing, insert_token, update_token,
}

-- the arguments of `release`, checked
pub record Release : Type 0 where
  pub token : ℕ
  pub key : StorageKey
  pub digest : ℕ
  pub size_bytes : ℕ

-- SELECT EXISTS(SELECT 1 FROM pending_entries WHERE activation_revision = ? AND ... activated = 0)
unfoldable pub is_referenced : ℕ → Release → List PendingEntry → Bool
is_referenced revision r [] = false
is_referenced revision r (e ∷ es) =
    e.revision == revision
      && (not e.activated
          && (same_key e.artifact.key r.key
              && (e.artifact.digest == r.digest && e.artifact.size_bytes == r.size_bytes)))
    || is_referenced revision r es

abbrev is_blocked : Release → Journal → Bool
is_blocked r j = elim j.pending_revision [
  | none ↦ false
  | some p ↦ is_referenced p r j.pending_entries
]

-- the first reads of `_release`: the row, if there is one
unfoldable pub select_release : CursorCodec → Release → Journal → Result Error (Option Token)
select_release codec r j = elim (journal_state codec j) [
  | err e ↦ err e
  | ok _ ↦ elim (find_token r.token j.tokens) [
    | none ↦ ok none
    | some t ↦
        if not (is_object_of r.key r.digest r.size_bytes t)
        then err Error.release_other_artifact
        else if is_blocked r j
        then err Error.release_blocked
        else ok (some t)
  ]
]

abbrev pub tombstone : Release → Token
tombstone r = record {
  token = r.token;
  key = r.key;
  digest = r.digest;
  size_bytes = r.size_bytes;
  modified_at = none;
  state = released;
  staging_leaf = none;
  identity = none;
}

-- INSERT INTO protection_tokens ... 'RELEASED', with an IntegrityError on a duplicate
unfoldable pub insert_tombstone : Release → Journal → Result Error Journal
insert_tombstone r j =
    if is_some (find_token r.token j.tokens)
    then err Error.integrity
    else ok (record j { tokens = insert_token (tombstone r) j.tokens })

-- `_stage_row_authorizes_partial_temporary`
unfoldable pub is_partial : ℕ → StorageKey → Option Leaf → Option Identity → Result Error Bool
is_partial token key none i = if is_some i then err Error.corrupt_authority else ok false
is_partial token key (some l) i =
    if same_leaf l token key then ok (not (is_some i)) else err Error.unsafe_path

abbrev pub mark_released : Token → Token
mark_released t = record t { state = released }

abbrev same_bool : Bool → Bool → Bool
same_bool true b = b
same_bool false b = not b

-- the row that was read, and whether this call has released it
pub record Withdrawal : Type 0 where
  pub row : Token
  pub newly_released : Bool

abbrev released_row : Token → Bool → Journal → Result Error (Journal × Withdrawal)
released_row t partial j =
    if not (same_bool (is_writing t.state) partial) && not (is_released t.state)
    then err Error.release_inconsistent
    else if is_released t.state
    then ok (j, record { row = t; newly_released = false })
    else ok (
      record j { tokens = update_token t.token mark_released j.tokens },
      record { row = t; newly_released = true },
    )

-- the transaction of `_release` on a row
unfoldable pub release_row : Release → Journal → Result Error (Journal × Withdrawal)
release_row r j = elim (find_token r.token j.tokens) [
  | none ↦ err Error.release_disappeared
  | some t ↦
      if not (is_object_of r.key r.digest r.size_bytes t)
      then err Error.release_other_artifact
      else elim (is_partial r.token r.key t.staging_leaf t.identity) [
        | err e ↦ err e
        | ok partial ↦ released_row t partial j
      ]
]
