-- ===== src/Library/Protection.antt =====
-- The table of protection tokens and the transactions of `protect` on it (library.py): which object a
-- token stages, and how far it is. Each transaction is a function on the journal.
use h2hdb_ingest.Prelude.{
  ℕ, Bool, true, false, not, ◌&&◌, ◌||◌, Option, none, some, List, [], ◌∷◌, Result, ok, err, ltb,
  ◌==◌, if◌then◌else◌, is_some, same,
}
use h2hdb_ingest.Library.Tables.{StorageKey, Identity, same_key, CurrentEntry}
use h2hdb_ingest.Library.State.{
  Error, TokenState, writing, staged, installed, released, Leaf, Token, Journal,
}
use h2hdb_ingest.Library.Install.{same_leaf}

-- the arguments of `protect`, checked
pub record Request : Type 0 where
  pub token : ℕ
  pub key : StorageKey
  pub digest : ℕ
  pub size_bytes : ℕ
  pub modified_at : ℕ

-- `{token_name}{suffix}`
abbrev pub stage_leaf : ℕ → StorageKey → Leaf
stage_leaf token key = record { token = token; kind = key.kind }

unfoldable pub find_token : ℕ → List Token → Option Token
find_token token [] = none
find_token token (t ∷ ts) = if t.token == token then some t else find_token token ts

-- the storage path, digest and size: `existing[:4] == expected_facts[:4]`
abbrev pub is_object_of : StorageKey → ℕ → ℕ → Token → Bool
is_object_of key digest size t = same_key t.key key && (t.digest == digest && t.size_bytes == size)

-- the row of the request, its modification time included
abbrev pub is_row_of : Request → Token → Bool
is_row_of r t =
    is_object_of r.key r.digest r.size_bytes t && same t.modified_at (some r.modified_at)

abbrev pub is_writing : TokenState → Bool
is_writing writing = true
is_writing _ = false

-- state IN ('WRITING', 'STAGED')
abbrev pub is_active : TokenState → Bool
is_active writing = true
is_active staged = true
is_active _ = false

-- SELECT token FROM protection_tokens WHERE storage_path = ? AND state IN ('WRITING', 'STAGED')
unfoldable pub slot_taken : StorageKey → List Token → Bool
slot_taken key [] = false
slot_taken key (t ∷ ts) = same_key t.key key && is_active t.state || slot_taken key ts

-- SELECT device, ... FROM current_entries WHERE storage_path = ? AND object_sha256 = ? AND ...
unfoldable pub find_installed : Request → List CurrentEntry → Option Identity
find_installed r [] = none
find_installed r (e ∷ es) =
    if same_key e.artifact.key r.key
      && (e.artifact.digest == r.digest
          && (e.artifact.size_bytes == r.size_bytes && e.artifact.modified_at == r.modified_at))
    then some e.identity
    else find_installed r es

-- what the first transaction of `protect` finds
pub data Opening : Type 0 where
  already_released : Opening
  already_installed : Identity → Opening
  already_staged : Token → Opening
  to_write : Opening

abbrev pub is_stage_leaf : ℕ → StorageKey → Option Leaf → Bool
is_stage_leaf token key none = false
is_stage_leaf token key (some l) = same_leaf l token key

-- `match state`
abbrev open_state : Request → List CurrentEntry → Token → TokenState → Result Error Opening
open_state r es t released =
    if is_some t.modified_at && not (same t.modified_at (some r.modified_at))
    then err Error.released_other_modified_at
    else ok already_released
open_state r es t staged =
    if not (same t.modified_at (some r.modified_at))
    then err Error.other_modified_at
    else if is_stage_leaf r.token r.key t.staging_leaf
    then ok (already_staged t)
    else err Error.leaf_disagrees
open_state r es t writing =
    if not (same t.modified_at (some r.modified_at))
    then err Error.other_modified_at
    else if is_stage_leaf r.token r.key t.staging_leaf && not (is_some t.identity)
    then ok to_write
    else err Error.writing_inconsistent
open_state r es t installed =
    if not (same t.modified_at (some r.modified_at))
    then err Error.other_modified_at
    else if is_some t.staging_leaf || is_some t.identity
    then err Error.installed_inconsistent
    else elim (find_installed r es) [
      | none ↦ err Error.lacks_current_authority
      | some i ↦ ok (already_installed i)
    ]

unfoldable pub open_row : Request → List CurrentEntry → Token → Result Error Opening
open_row r es t =
    if is_object_of r.key r.digest r.size_bytes t
    then open_state r es t t.state
    else err Error.token_reused

-- INSERT INTO protection_tokens, at its place in the order of the tokens
unfoldable pub insert_token : Token → List Token → List Token
insert_token t [] = t ∷ []
insert_token t (x ∷ xs) =
    let rest = insert_token t xs in if ltb t.token x.token then t ∷ x ∷ xs else x ∷ rest

abbrev pub new_row : Request → Token
new_row r = record {
  token = r.token;
  key = r.key;
  digest = r.digest;
  size_bytes = r.size_bytes;
  modified_at = some r.modified_at;
  state = writing;
  staging_leaf = some (stage_leaf r.token r.key);
  identity = none;
}

abbrev opened : Journal → Result Error Opening → Result Error (Journal × Opening)
opened j (ok o) = ok (j, o)
opened j (err e) = err e

-- the first transaction of `_protect`
unfoldable pub open_stage : Request → Journal → Result Error (Journal × Opening)
open_stage r j = elim (find_token r.token j.tokens) [
  | some t ↦ opened j (open_row r j.current_entries t)
  | none ↦
      if slot_taken r.key j.tokens
      then err Error.slot_conflict
      else ok (record j { tokens = insert_token (new_row r) j.tokens }, to_write)
]

-- UPDATE protection_tokens SET ... WHERE token = ?, on the row that was just read
unfoldable pub update_token : ℕ → (Token → Token) → List Token → List Token
update_token token f [] = []
update_token token f (t ∷ ts) = (if t.token == token then f t else t) ∷ update_token token f ts

-- both are identities of a file of one size: device, inode and modification time
abbrev pub same_file : Identity → Identity → Bool
same_file a b = a.device == b.device && (a.inode == b.inode && a.modified_ns == b.modified_ns)

-- the file's bytes, once written: kept, or to be discarded because the token was released
pub data Finish : Type 0 where
  kept : Finish
  discarded : Identity → Finish

abbrev pub mark_staged : Identity → Token → Token
mark_staged i t = record t { state = staged; identity = some i }

abbrev finish_state :
    Request → Identity → Token → TokenState → Journal → Result Error (Journal × Finish)
finish_state r i t released j = ok (j, discarded i)
finish_state r i t installed j = err Error.protection_changed
finish_state r i t staged j =
    if not (is_stage_leaf r.token r.key t.staging_leaf)
    then err Error.leaf_disagrees
    else elim t.identity [
      | none ↦ err Error.corrupt_authority
      | some k ↦ if same_file k i then ok (j, kept) else err Error.protection_changed
    ]
finish_state r i t writing j =
    if is_stage_leaf r.token r.key t.staging_leaf && not (is_some t.identity)
    then ok (record j { tokens = update_token r.token (mark_staged i) j.tokens }, kept)
    else err Error.protection_changed

-- the second transaction of `_protect`
unfoldable pub finish_stage : Request → Identity → Journal → Result Error (Journal × Finish)
finish_stage r i j = elim (find_token r.token j.tokens) [
  | none ↦ err Error.protection_changed
  | some t ↦ if is_row_of r t then finish_state r i t t.state j else err Error.protection_changed
]
