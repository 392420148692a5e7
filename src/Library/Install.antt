-- ===== src/Library/Install.antt =====
-- The installation of pending entries (`_activate_pending` of library.py): reserve a page in one
-- transaction, do its file operations, publish their outcomes in another.
use h2hdb_ingest.Prelude.{
  ℕ, Bool, true, false, not, ◌&&◌, Option, none, some, List, [], ◌∷◌, Result, ok, err, ◌==◌,
  if◌then◌else◌, is_some, same, take,
}
use h2hdb_ingest.Library.Tables.{
  rank, Cursor, StorageKey, Artifact, Identity, CurrentEntry, PendingEntry, same_key, find_current,
  find_pending, update_pending, unactivated,
}
use h2hdb_ingest.Library.State.{
  Error, TokenState, staged, Leaf, Token, Journal, CursorCodec, is_activating, journal_state,
}

-- _StagedAuthority
pub record Staged : Type 0 where
  pub token : ℕ
  pub leaf : Leaf
  pub identity : Identity

-- _PendingInstall
pub record Install : Type 0 where
  pub revision : ℕ
  pub receipt : ℕ
  pub at : Cursor
  pub artifact : Artifact
  pub fresh_authorization : Bool
  pub staged : Option Staged
  pub current : Option CurrentEntry

-- _InstalledPending
pub record Installed : Type 0 where
  pub plan : Install
  pub identity : Identity
  pub terminal_token : Option ℕ

-- The file operations below the library root, each of which may raise.
pub record Disk : Type 0 where
  pub require_current : StorageKey → ℕ → Identity → Result Error Identity
  pub has_quarantine : StorageKey → ℕ → Bool
  pub install_staged : Install → Staged → Result Error Identity
  pub retire_current : Install → CurrentEntry → Result Error (Unit {0})

abbrev pub is_staged : TokenState → Bool
is_staged staged = true
is_staged _ = false

abbrev pub same_leaf : Leaf → ℕ → StorageKey → Bool
same_leaf l token key = l.token == token && rank l.kind == rank key.kind

-- state = 'STAGED' and the five facts of the artifact
abbrev pub is_candidate : Artifact → Token → Bool
is_candidate a t =
    is_staged t.state
    && (same_key t.key a.key
        && (t.digest == a.digest
            && (t.size_bytes == a.size_bytes && same t.modified_at (some a.modified_at))))

abbrev staged_of : Token → Artifact → Option Leaf → Option Identity → Result Error (Option Staged)
staged_of t a (some l) (some i) =
    if same_leaf l t.token a.key
    then ok (some (record { token = t.token; leaf = l; identity = i }))
    else err Error.unsafe_path
staged_of t a _ _ = err Error.unsafe_path

-- `_staged_candidate_authority`: the first staged token of the artifact
unfoldable pub staged_candidate : Artifact → List Token → Result Error (Option Staged)
staged_candidate a [] = ok none
staged_candidate a (t ∷ ts) =
    let rest = staged_candidate a ts in
    if is_candidate a t then staged_of t a t.staging_leaf t.identity else rest

abbrev pub mark_started : PendingEntry → PendingEntry
mark_started e = record e { operation_started = true }

abbrev pub started_entries : ℕ → Cursor → Bool → List PendingEntry → List PendingEntry
started_entries r c fresh es = if fresh then update_pending r c mark_started es else es

abbrev plan_of : ℕ → ℕ → PendingEntry → Option Staged → Journal → Journal × Install
plan_of revision receipt e candidate j = (
  record j {
    pending_entries = started_entries revision e.at (not e.operation_started) j.pending_entries;
  },
  record {
    revision = revision;
    receipt = receipt;
    at = e.at;
    artifact = e.artifact;
    fresh_authorization = not e.operation_started;
    staged = candidate;
    current = find_current e.at j.current_entries;
  },
)

-- `_reserve_pending_install_in_transaction`
unfoldable pub reserve_install : ℕ → ℕ → Cursor → Journal → Result Error (Journal × Install)
reserve_install revision receipt at j = elim (find_pending revision at j.pending_entries) [
  | none ↦ err Error.pending_changed
  | some e ↦
      if e.activated
      then err Error.pending_changed
      else if is_some e.identity
      then err Error.corrupt_authority
      else elim (staged_candidate e.artifact j.tokens) [
        | err x ↦ err x
        | ok candidate ↦ ok (plan_of revision receipt e candidate j)
      ]
]

abbrev add_plan :
    Install → Result Error (Journal × List Install) → Result Error (Journal × List Install)
add_plan p (ok (j, ps)) = ok (j, p ∷ ps)
add_plan p (err e) = err e

abbrev then_plan :
    Result Error (Journal × Install)
    → (Journal → Result Error (Journal × List Install))
    → Result Error (Journal × List Install)
then_plan (ok (j, p)) f = add_plan p (f j)
then_plan (err e) f = err e

unfoldable pub reserve_each :
    ℕ → ℕ → List PendingEntry → Journal → Result Error (Journal × List Install)
reserve_each revision receipt [] j = ok (j, [])
reserve_each revision receipt (e ∷ es) j =
    then_plan (reserve_install revision receipt e.at j) (reserve_each revision receipt es)

-- `_require_reconciling`, below its `_journal_state`
abbrev pub is_reconciling : ℕ → ℕ → Journal → Bool
is_reconciling revision receipt j =
    same j.pending_revision (some revision)
    && (same j.pending_receipt (some receipt) && is_activating j.phase)

abbrev pub require_reconciling :
    CursorCodec → ℕ → ℕ → (Journal → Result Error Journal) → Journal → Result Error Journal
require_reconciling codec revision receipt f j = elim (journal_state codec j) [
  | err e ↦ err e
  | ok _ ↦
      if is_reconciling revision receipt j then f j else err Error.changed_during_reconciliation
]

-- the transaction of `_reserve_pending_installs`
unfoldable pub reserve_installs :
    CursorCodec → ℕ → ℕ → ℕ → Journal → Result Error (Journal × List Install)
reserve_installs codec revision receipt limit j = elim (journal_state codec j) [
  | err e ↦ err e
  | ok _ ↦
      if is_reconciling revision receipt j
      then reserve_each revision receipt (take limit (unactivated revision j.pending_entries)) j
      else err Error.changed_during_reconciliation
]

-- the current row already holds the bytes of the plan
abbrev is_unchanged : Install → Bool
is_unchanged p = elim p.current [
  | none ↦ false
  | some c ↦
      c.artifact.digest == p.artifact.digest && c.artifact.size_bytes == p.artifact.size_bytes
]

-- `_same_content_identity`, where the sizes have been compared with the plan's
abbrev same_content : Identity → Identity → Bool
same_content a b = a.device == b.device && (a.inode == b.inode && a.modified_ns == b.modified_ns)

module _ (disk : Disk) where
  open disk use {require_current, has_quarantine, install_staged, retire_current}

  -- without staged bytes the current ones must be those of the plan
  keep_current : Install → Option CurrentEntry → Result Error Identity
  keep_current p none = err Error.lacks_staged_authority
  keep_current p (some c) =
      if not (is_unchanged p)
      then err Error.lacks_staged_authority
      else if has_quarantine p.artifact.key p.artifact.digest
      then err Error.replacement_quarantine
      else require_current p.artifact.key p.artifact.size_bytes c.identity

  retire_replaced : Install → Option CurrentEntry → Result Error (Unit {0})
  retire_replaced p none = ok tt
  retire_replaced p (some c) = retire_current p c

  place : Install → Option Staged → Result Error Identity
  unfolding keep_current retire_replaced
  place p none = keep_current p p.current
  place p (some st) = elim (install_staged p st) [
    | err e ↦ err e
    | ok i ↦ elim (retire_replaced p p.current) [ err e ↦ err e | ok _ ↦ ok i ]
  ]

  confirmed : Option Staged → Identity → Result Error (Identity × Option ℕ)
  confirmed none i = ok (i, none)
  confirmed (some st) i =
      if same_content i st.identity then ok (i, some st.token) else err Error.lost_staged_inode

  -- `_perform_pending_install`
  unfoldable pub perform_install : Install → Result Error (Identity × Option ℕ)
  unfolding place confirmed
  perform_install p = elim (place p p.staged) [
    | err e ↦ err e
    | ok i ↦ elim (require_current p.artifact.key p.artifact.size_bytes i) [
      | err e ↦ err e
      | ok durable ↦ confirmed p.staged durable
    ]
  ]

  unfoldable pub perform_installs : List Install → Result Error (List Installed)
  perform_installs [] = ok []
  perform_installs (p ∷ ps) = elim (perform_install p) [
    | err e ↦ err e
    | ok r ↦ elim (perform_installs ps) [
      | err e ↦ err e
      | ok rs ↦ ok (record { plan = p; identity = r.0; terminal_token = r.1 } ∷ rs)
    ]
  ]

  -- the checks of `_commit_pending_installs` before its transaction
  unfoldable pub verify_installs : ℕ → ℕ → List Installed → Result Error (List Installed)
  verify_installs revision receipt [] = ok []
  verify_installs revision receipt (o ∷ os) =
      if not (o.plan.revision == revision && o.plan.receipt == receipt)
      then err Error.mixed_receipts
      else elim (require_current o.plan.artifact.key o.plan.artifact.size_bytes o.identity) [
        | err e ↦ err e
        | ok i ↦ elim (verify_installs revision receipt os) [
          | err e ↦ err e
          | ok rest ↦ ok (record o { identity = i } ∷ rest)
        ]
      ]
