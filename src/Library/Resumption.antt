-- ===== src/Library/Resumption.antt =====
-- `begin` while an activation is pending, and what becomes of a pending activation.
use h2hdb_ingest.Prelude.{
  ℕ, ◌≡◌, true, false, Option, none, some, List, arith, Result, ok, err, refl, Option-cases, ◌&&◌,
  not, inl, inr, ◌⊎◌,
}
use h2hdb_ingest.Library.State.{
  Error, Journal, Library, Bytes, CursorCodec, journal_state, check_journal, Phase, idle,
  open_spool, sealed, activating, ready, Status, spool, reconcile, ready_status, Checkpoint,
  checkpoint, ◌>>=◌, require_guard, acquire_publication_lock,
}
use h2hdb_ingest.Library.Tables.{Cursor}
use h2hdb_ingest.Library.Marker.{is_present, is_marker_of, revision_of, receipt_of}
use h2hdb_ingest.Library.Activation.{is_past_open, begin_at, begin}
use h2hdb_ingest.Library.Calls.{Call, run}
use h2hdb_ingest.Library.Coherence.{IsCoherent}
use h2hdb_ingest.Library.Revisions.{fresh, fresh-IsCoherent, run-IsCoherent}

-- the status that a caller is told at each stage of an activation
abbrev pub IsStatus : Phase → Status → Type 0
IsStatus idle status = ⊥
IsStatus open_spool status = status ≡ spool
IsStatus sealed status = status ≡ reconcile
IsStatus activating status = status ≡ reconcile
IsStatus ready status = status ≡ ready_status

-- the cursor that the stored bytes stand for, if there are any
abbrev pub IsDecoded : CursorCodec → Option ℕ → Option Cursor → Type 0
IsDecoded codec none none = Unit
IsDecoded codec (some b) (some c) = codec.from_bytes b ≡ some c
IsDecoded codec _ _ = ⊥

-- a checkpoint of this activation at its stage
abbrev pub IsCheckpoint : CursorCodec → ℕ → ℕ → Journal → Result Error Checkpoint → Type 0
IsCheckpoint codec target receipt j (ok c) =
    (c.revision ≡ target)
    × (c.receipt ≡ receipt)
    × (IsStatus j.phase c.status)
    × (IsDecoded codec j.last_cursor c.cursor)
IsCheckpoint codec target receipt j (err e) = ⊥

-- an answer that is a checkpoint of this activation and changes nothing but the lock
abbrev pub IsResumed : CursorCodec → ℕ → ℕ → Library → Result Error Checkpoint × Library → Type 0
IsResumed codec target receipt s (r, t) =
    IsCheckpoint codec target receipt s.journal r × (t ≡ record s { locked = true })

Phase-cases :
    (p : Phase)
    → (p ≡ idle) ⊎ ((p ≡ open_spool) ⊎ ((p ≡ sealed) ⊎ ((p ≡ activating) ⊎ (p ≡ ready))))
Phase-cases idle = inl refl
Phase-cases open_spool = inr (inl refl)
Phase-cases sealed = inr (inr (inl refl))
Phase-cases activating = inr (inr (inr (inl refl)))
Phase-cases ready = inr (inr (inr (inr refl)))

checkpoint-pending :
    (codec : CursorCodec) (target receipt : ℕ) (j : Journal)
    → IsCoherent codec j
    → j.pending_revision ≡ some target
    → j.pending_receipt ≡ some receipt
    → IsCheckpoint codec target receipt j (checkpoint codec j)
unfolding checkpoint journal_state
checkpoint-pending codec target receipt j h p q =
    let c = h.checked in
    elim (Option-cases j.last_cursor) [
      | inl n ↦ elim (Phase-cases j.phase) [
        | inl f ↦ absurd (ground (arith, c))
        | inr (inl f) ↦ ground arith
        | inr (inr (inl f)) ↦ ground arith
        | inr (inr (inr (inl f))) ↦ ground arith
        | inr (inr (inr (inr f))) ↦ ground arith
      ]
      | inr (b, n) ↦ elim (Option-cases (codec.from_bytes b)) [
        | inl m ↦ absurd (ground (arith, c))
        | inr (d, m) ↦ elim (Phase-cases j.phase) [
          | inl f ↦ absurd (ground (arith, c))
          | inr (inl f) ↦ ground arith
          | inr (inr (inl f)) ↦ absurd (ground (arith, c))
          | inr (inr (inr (inl f))) ↦ ground arith
          | inr (inr (inr (inr f))) ↦ absurd (ground (arith, c))
        ]
      ]
    ]

begin_at-resumes :
    (codec : CursorCodec) (target receipt : ℕ) (s : Library)
    → IsCoherent codec s.journal
    → s.pending_revision ≡ some target
    → s.pending_receipt ≡ some receipt
    → (is_past_open s.phase && (is_present s.marker && not (is_marker_of target receipt s.marker)))
      ≡ false
    → begin_at codec target receipt s ≡ (checkpoint codec s.journal, s)
unfolding begin_at
begin_at-resumes codec target receipt s h p q m = ground (arith, h.above)

begin-locks :
    (codec : CursorCodec) (revision target receipt : ℕ) (receipt_id : Bytes) (s : Library)
    → revision_of revision ≡ ok target
    → receipt_of receipt_id ≡ ok receipt
    → s.guarded ≡ true
    → IsCoherent codec s.journal
    → begin codec revision receipt_id s ≡ begin_at codec target receipt (record s { locked = true })
unfolding begin ◌>>=◌ require_guard acquire_publication_lock check_journal
begin-locks codec revision target receipt receipt_id s r b g h = ground (arith, h.checked)

-- After any calls, a `begin` under the guard with the revision and the receipt that are pending
-- never raises, at whatever stage the activation was interrupted, unless the stage is past the
-- spool and the marker that is published is another one's: it takes the publication lock, changes
-- nothing else, and returns the checkpoint of that activation, with the status of its stage and the
-- cursor that the journal has stored.
pub begin-resumes :
    (codec : CursorCodec) (calls : List Call) (revision target receipt : ℕ) (receipt_id : Bytes)
    → revision_of revision ≡ ok target
    → receipt_of receipt_id ≡ ok receipt
    → (run codec calls fresh).guarded ≡ true
    → (run codec calls fresh).pending_revision ≡ some target
    → (run codec calls fresh).pending_receipt ≡ some receipt
    → (is_past_open (run codec calls fresh).phase
        && (is_present (run codec calls fresh).marker
            && not (is_marker_of target receipt (run codec calls fresh).marker)))
      ≡ false
    → let s = run codec calls fresh in
      IsResumed codec target receipt s (begin codec revision receipt_id s)
begin-resumes codec calls revision target receipt receipt_id r b g p q m =
    let s = run codec calls fresh in
    let h = run-IsCoherent codec calls fresh (fresh-IsCoherent codec) in
    rw (begin-locks codec revision target receipt receipt_id s r b g h) (
      rw (begin_at-resumes codec target receipt (record s { locked = true }) h p q m)
        (checkpoint-pending codec target receipt s.journal h p q, refl))
