-- ===== src/Library/Reconciled/Stages.antt =====
-- The steps from stage to stage, and the pages of the spool, keep the rows exact.
use h2hdb_ingest.Prelude.{
  Option-cases, ℕ, ◌≡◌, false, none, some, List, [], ◌∷◌, arith, ok, same, inl, inr,
}
use h2hdb_ingest.Library.Tables.{PendingEntry, Cursor, PendingRemoval, find_pending, removals_of}
use h2hdb_ingest.Library.State.{Token, Journal, CursorCodec, journal_state}
use h2hdb_ingest.Library.Spool.{Item, append_item, append_items, append_page, seal_journal}
use h2hdb_ingest.Library.Activation.{is_older, open_pending, complete_journal}
use h2hdb_ingest.Library.Reconcile.{start_activating, become_ready}
use h2hdb_ingest.Library.Cleanup.{purge}
use h2hdb_ingest.Library.Inversion.{Result-cases}
use h2hdb_ingest.Library.Coherence.{IsCoherent}
use h2hdb_ingest.Library.Coherence.Entries.{append_item-inserts}
use h2hdb_ingest.Library.Reconciled.Rows.{AllStale, AllStale-empty, find_pending-unknown}
use h2hdb_ingest.Library.Reconciled.Writes.{AreInstalled, AreInstalled-none, AreInstalled-insert}
use h2hdb_ingest.Library.Reconciled.Rowset.{IsReconciled}

module _ (codec : CursorCodec) where
  pub open-IsReconciled :
      (target receipt : ℕ) (j j' : Journal)
      → is_older target j.current_revision ≡ false
      → same j.current_revision (some target) ≡ false
      → IsCoherent codec j
      → IsReconciled j
      → open_pending target receipt j ≡ ok j'
      → IsReconciled j'
  unfolding open_pending journal_state
  open-IsReconciled target receipt j j' older new h k e =
      let none_pending : j.pending_revision ≡ none = ground arith in
      let unknown : (c : Cursor) → find_pending target c j.pending_entries ≡ none = λ c.
        find_pending-unknown j.current_revision target c j.pending_entries (ground arith)
          (rw none_pending at h.known) in
      let installed = AreInstalled-none target j.pending_entries j.current_entries unknown in
      let empty : j.pending_removals ≡ [] = k.at_rest (let c = h.checked in ground arith) in
      ground (arith, installed, empty)

  pub seal-IsReconciled :
      (target : ℕ) (j j' : Journal)
      → IsReconciled j
      → seal_journal codec target j ≡ ok j'
      → IsReconciled j'
  unfolding seal_journal
  seal-IsReconciled target j j' k e = ground (arith, k.at_rest)

  pub start-IsReconciled :
      (target : ℕ) (j j' : Journal)
      → IsReconciled j
      → start_activating target j ≡ ok j'
      → IsReconciled j'
  unfolding start_activating
  start-IsReconciled target j j' k e = ground (arith, k.at_rest)

  pub ready-IsReconciled :
      (target receipt : ℕ) (j j' : Journal)
      → IsReconciled j
      → become_ready codec target receipt j ≡ ok j'
      → IsReconciled j'
  unfolding become_ready
  ready-IsReconciled target receipt j j' k e = elim (Result-cases (journal_state codec j)) [
    | inr (y, s) ↦ absurd (ground arith)
    | inl (u, s) ↦
        let p : j.pending_revision ≡ some target = ground arith in
        let none_left : removals_of target j.pending_removals ≡ [] = ground arith in
        let empty =
          AllStale-empty target j.pending_entries j.pending_removals (rw p at k.removals)
            none_left in
        ground (arith, empty)
  ]

  pub complete-IsReconciled :
      (target receipt : ℕ) (j j' : Journal)
      → IsReconciled j
      → complete_journal codec target receipt j ≡ ok j'
      → IsReconciled j'
  unfolding complete_journal
  complete-IsReconciled target receipt j j' k e = ground (arith, k.at_rest)

  -- the rows of a page of the spool
  pub append_items-rows :
      (target : ℕ) (is : List Item) (j j' : Journal)
      → AreInstalled target j.pending_entries j.current_entries
      → append_items target is j ≡ ok j'
      → AreInstalled target j'.pending_entries j'.current_entries
        × (j' ≡ record j { pending_entries = j'.pending_entries })
  unfolding append_items
  append_items-rows target [] j j' k h = ground arith
  append_items-rows target (i ∷ is) j j' k h = elim (Result-cases (append_item target i j)) [
    | inr (y, s) ↦ absurd (ground arith)
    | inl (m, s) ↦
        let (e, _, _, a, d, w) = append_item-inserts target i j m s in
        let after = AreInstalled-insert target e j.pending_entries j.current_entries d a k in
        ground (arith, append_items-rows target is m j' (rw w after) (ground arith))
  ]

  pub append-IsReconciled :
      (target : ℕ) (page : List Item) (j j' : Journal)
      → IsReconciled j
      → append_page codec target page j ≡ ok j'
      → IsReconciled j'
  unfolding append_page
  append-IsReconciled target [] j j' k e = elim (Result-cases (append_items target [] j)) [
    | inr (y, t) ↦ absurd (ground arith)
    | inl (m, t) ↦
        let p : j.pending_revision ≡ some target = ground arith in
        let i : AreInstalled target j.pending_entries j.current_entries = ground arith in
        ground (arith, append_items-rows target [] j m i t, k.at_rest)
  ]
  append-IsReconciled target (x ∷ xs) j j' k e =
      elim (Result-cases (append_items target (x ∷ xs) j)) [
        | inr (y, t) ↦ absurd (ground arith)
        | inl (m, t) ↦
            let p : j.pending_revision ≡ some target = ground arith in
            let i : AreInstalled target j.pending_entries j.current_entries = ground arith in
            ground (arith, append_items-rows target (x ∷ xs) j m i t, k.at_rest)
      ]

  pub tokens-IsReconciled :
      (tokens : List Token) (j : Journal)
      → IsReconciled j
      → IsReconciled (record j { tokens = tokens })
  tokens-IsReconciled tokens j k = elim (Option-cases j.pending_revision) [
    | inl n ↦ ground (arith, k.at_rest)
    | inr (r, n) ↦ ground (arith, k.at_rest)
  ]

  -- Nothing is pending, so no removal is.
  pub AllStale-none :
      (es es' : List PendingEntry) (xs : List PendingRemoval)
      → AllStale none es xs
      → AllStale none es' xs
  AllStale-none es es' [] h = tt
  AllStale-none es es' (x ∷ xs) h = ground arith

  pub purge-IsReconciled :
      (j j' : Journal)
      → j.pending_revision ≡ none
      → IsReconciled j
      → purge j ≡ ok j'
      → IsReconciled j'
  unfolding purge
  purge-IsReconciled j j' n k e =
      let s =
        AllStale-none j.pending_entries j'.pending_entries j.pending_removals
          (rw n at k.removals) in
      ground (arith, s, k.at_rest)
