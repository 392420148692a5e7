-- ===== src/Library/Publish.antt =====
-- The transaction that publishes installed entries (`_commit_pending_installs` of library.py).
use h2hdb_ingest.Prelude.{
  ℕ, Bool, true, false, not, ◌&&◌, Option, none, some, List, [], ◌∷◌, Result, ok, err, leb, ◌==◌,
  if◌then◌else◌, is_some, length, map_option,
}
use h2hdb_ingest.Library.Tables.{
  rank, Cursor, Artifact, Identity, CurrentEntry, PendingEntry, same_artifact, same_identity,
  current_conflict, upsert_current, find_pending, update_pending,
}
use h2hdb_ingest.Library.State.{
  Error, installed, Leaf, Token, Journal, Exec, pure, lift, ◌>>=◌, ◌>>◌, transaction,
  transaction_with, require_publication_lock, CursorCodec, Checkpoint, reconcile,
}
use h2hdb_ingest.Library.Marker.{max_page_items}
use h2hdb_ingest.Library.Install.{
  Staged, Install, Installed, Disk, is_candidate, require_reconciling, is_reconciling,
  reserve_installs, perform_installs, verify_installs,
}

abbrev pub holds_stage : Option Leaf → Option Identity → Staged → Bool
holds_stage (some l) (some i) st =
    l.token == st.leaf.token && (rank l.kind == rank st.leaf.kind && same_identity i st.identity)
holds_stage _ _ st = false

-- the row is still the STAGED one that the plan has read
abbrev pub is_authority : ℕ → Artifact → Staged → Token → Bool
is_authority token a st t =
    t.token == token && (is_candidate a t && holds_stage t.staging_leaf t.identity st)

-- `_terminalize_stage_in_transaction`: the rows after the update, `none` if no row was updated
unfoldable pub terminalize_stage : ℕ → Artifact → Staged → List Token → Option (List Token)
terminalize_stage token a st [] = none
terminalize_stage token a st (t ∷ ts) =
    let rest = map_option (λ us. t ∷ us) (terminalize_stage token a st ts) in
    if is_authority token a st t
    then some (record t { state = installed; staging_leaf = none; identity = none } ∷ ts)
    else rest

abbrev pub stage_tokens : Install → Option ℕ → List Token → Result Error (List Token)
stage_tokens p none ts = ok ts
stage_tokens p (some token) ts = elim p.staged [
  | none ↦ err Error.lacks_token_authority
  | some st ↦ elim (terminalize_stage token p.artifact st ts) [
    | none ↦ err Error.staged_changed
    | some us ↦ ok us
  ]
]

abbrev pub mark_activated : Identity → PendingEntry → PendingEntry
mark_activated i e = record e { activated = true; identity = some i }

abbrev pub current_row : Installed → CurrentEntry
current_row o = record { at = o.plan.at; artifact = o.plan.artifact; identity = o.identity }

-- the pending row is the reserved one: `expected_pending`
abbrev pub is_reserved : Install → PendingEntry → Bool
is_reserved p e =
    same_artifact e.artifact p.artifact
    && (e.operation_started && (not e.activated && not (is_some e.identity)))

abbrev pub published : Installed → List Token → Journal → Journal
published o ts j = record j {
  tokens = ts;
  current_entries = upsert_current (current_row o) j.current_entries;
  pending_entries =
      update_pending o.plan.revision o.plan.at (mark_activated o.identity) j.pending_entries;
}

-- `_terminalize_pending_install_in_transaction`
unfoldable pub terminalize_install : Installed → Journal → Result Error Journal
terminalize_install o j = elim (find_pending o.plan.revision o.plan.at j.pending_entries) [
  | none ↦ err Error.pending_changed
  | some e ↦
      if not (is_reserved o.plan e)
      then err Error.pending_changed
      else elim (stage_tokens o.plan o.terminal_token j.tokens) [
        | err x ↦ err x
        | ok ts ↦
            if current_conflict (current_row o) j.current_entries
            then err Error.integrity
            else ok (published o ts j)
      ]
]

unfoldable pub terminalize_installs : List Installed → Journal → Result Error Journal
terminalize_installs [] j = ok j
terminalize_installs (o ∷ os) j = elim (terminalize_install o j) [
  | err e ↦ err e
  | ok j' ↦ terminalize_installs os j'
]

abbrev pub last_cursor_of : Installed → List Installed → Cursor
last_cursor_of o [] = o.plan.at
last_cursor_of o (p ∷ ps) = last_cursor_of p ps

module _ (codec : CursorCodec) where
  open codec use {to_bytes}

  -- `_record_reconcile_cursor_in_transaction`
  unfoldable pub record_cursor : ℕ → ℕ → Cursor → Journal → Result Error Journal
  record_cursor revision receipt c j =
      if is_reconciling revision receipt j
      then ok (record j { last_cursor = some (to_bytes c) })
      else err Error.cursor_lost_activation

  unfoldable pub publish_page : ℕ → ℕ → Installed → List Installed → Journal → Result Error Journal
  publish_page revision receipt o os j =
      require_reconciling codec revision receipt
        (λ i. elim (terminalize_installs (o ∷ os) i) [
          | err e ↦ err e
          | ok k ↦ record_cursor revision receipt (last_cursor_of o os) k
        ])
        j

  abbrev pub at_cursor : ℕ → ℕ → Cursor → Checkpoint
  at_cursor revision receipt c = record {
    revision = revision;
    receipt = receipt;
    status = reconcile;
    cursor = some c;
  }

  unfoldable pub commit_verified : ℕ → ℕ → List Installed → Exec Checkpoint
  commit_verified revision receipt [] = λ s. (err Error.page_not_bounded, s)
  commit_verified revision receipt (o ∷ os) = do
    transaction (publish_page revision receipt o os)
    pure (at_cursor revision receipt (last_cursor_of o os))

  -- `_commit_pending_installs`
  unfoldable pub commit_installs : Disk → ℕ → ℕ → List Installed → Exec Checkpoint
  commit_installs disk revision receipt outcomes = do
    require_publication_lock
    lift (
        if leb 1 (length outcomes) && leb (length outcomes) max_page_items
        then ok tt
        else err Error.page_not_bounded)
    verified ← lift (verify_installs disk revision receipt outcomes)
    commit_verified revision receipt verified

  unfoldable pub install_plans : Disk → ℕ → ℕ → List Install → Exec (Option Checkpoint)
  install_plans disk revision receipt [] = pure none
  install_plans disk revision receipt (p ∷ ps) = do
    outcomes ← lift (perform_installs disk (p ∷ ps))
    c ← commit_installs disk revision receipt outcomes
    pure (some c)

  -- `_activate_pending`: `none` if no entry was left to install
  unfoldable pub activate_pending : Disk → ℕ → ℕ → ℕ → Exec (Option Checkpoint)
  activate_pending disk revision receipt limit = do
    plans ← transaction_with (reserve_installs codec revision receipt limit)
    install_plans disk revision receipt plans
