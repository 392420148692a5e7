-- ===== src/Library/Reconciled.antt =====
-- A reconciliation that is ready has published the pending revision exactly.
pub mod Rows
pub mod Writes
pub mod Rowset
pub mod Stages
pub mod Work
pub mod Steps
use h2hdb_ingest.Prelude.{
  ℕ, ◌≡◌, Bool, true, false, not, Option, none, some, List, [], ◌∷◌, arith, refl, sym, subst,
  Result, ok, err, same, ◌++◌, map, take, Option-cases, Bool-cases, inl, inr,
}
use h2hdb_ingest.Library.Tables.{
  Cursor, CurrentEntry, PendingEntry, PendingRemoval, find_current, find_pending, removals_of,
  unactivated, stale,
}
use h2hdb_ingest.Library.Tables.Lookup.{unactivated_none, stale_none}
use h2hdb_ingest.Library.State.{
  Journal, Library, CursorCodec, journal_state, is_activating, is_ready,
}
use h2hdb_ingest.Library.Spool.{Item, append_item, append_items, append_page, seal_journal}
use h2hdb_ingest.Library.Activation.{is_older, open_pending, complete_journal}
use h2hdb_ingest.Library.Install.{
  is_reconciling, Install, Installed, reserve_install, reserve_installs, reserve_each, mark_started,
}
use h2hdb_ingest.Library.Publish.{
  mark_activated, publish_page, terminalize_install, terminalize_installs,
}
use h2hdb_ingest.Library.Removal.{
  plan_removals, select_removals, reserve_removals, remove_page, terminalize_removal,
  terminalize_removals,
}
use h2hdb_ingest.Library.Reconcile.{start_activating, become_ready}
use h2hdb_ingest.Library.Preserved.{AreFor, IsPreserved}
use h2hdb_ingest.Library.Calls.{Call, run, run-IsPreserved}
use h2hdb_ingest.Library.Inversion.{
  Result-cases, publish_page-writes, remove_page-writes, reserve_installs-reads,
  reserve_install-writes, terminalize_install-writes, terminalize_removal-writes,
  reserve_each-induction, terminalize_removals-induction,
}
use h2hdb_ingest.Library.Coherence.{IsCoherent, IsCoherent-preserved}
use h2hdb_ingest.Library.Coherence.Entries.{append_item-inserts}
use h2hdb_ingest.Library.Revisions.{fresh, fresh-IsCoherent}
use h2hdb_ingest.Library.Coherence.Frames.{
  reserve_each-Frame, terminalize_installs-Frame, terminalize_removals-Frame,
}
use Steps.{Exact, Exact-preserved, fresh-Exact}
use Rowset.{IsSettled, IsReconciled}
use Rows.{
  AllStale, AllStale-find, AllStale-empty, AllStale-delete, AllStale-start_each, AllStale-select,
  find_pending-unknown,
}
use Writes.{
  Matches, AreInstalled, AreInstalled-none, AreInstalled-insert, AreInstalled-start,
  AreInstalled-publish, AreInstalled-delete, AllStale-update,
}

-- what a key holds on both sides once its revision is published
abbrev pub IsPublished : Option PendingEntry → Option CurrentEntry → Type 0
IsPublished none none = Unit
IsPublished (some e) (some q) =
    (e.activated ≡ true) × (q.artifact ≡ e.artifact) × (e.identity ≡ some q.identity)
IsPublished _ _ = ⊥

settled-IsPublished :
    (r : ℕ) (j : Journal) (c : Cursor)
    → AreInstalled r j.pending_entries j.current_entries
    → unactivated r j.pending_entries ≡ []
    → stale r j.pending_entries j.current_entries ≡ []
    → IsPublished (find_pending r c j.pending_entries) (find_current c j.current_entries)
settled-IsPublished r j c h u s = elim (Option-cases (find_pending r c j.pending_entries)) [
  | inl n ↦ elim (Option-cases (find_current c j.current_entries)) [
    | inl m ↦ ground arith
    | inr (q, m) ↦
        let p = stale_none r j.pending_entries j.current_entries c q s m in absurd (ground arith)
  ]
  | inr (e, n) ↦
      let a = unactivated_none r j.pending_entries c e u n in ground (arith, h.at c e n a)
]

-- After any calls on a fresh library, whatever failed, was repeated or was interrupted between
-- two of them, once the activation of a revision is READY the library holds that revision exactly:
-- a key has a current entry if and only if the revision has a pending entry under it, and then the
-- two agree on the artifact and on the identity of the file that was installed.
pub run-ready :
    (codec : CursorCodec) (cs : List Call) (r : ℕ) (c : Cursor)
    → (run codec cs fresh).pending_revision ≡ some r
    → is_ready (run codec cs fresh).phase ≡ true
    → IsPublished
        (find_pending r c (run codec cs fresh).pending_entries)
        (find_current c (run codec cs fresh).current_entries)
run-ready codec cs r c p a =
    let s = run codec cs fresh in
    let h = (run-IsPreserved codec (Exact-preserved codec) cs fresh (fresh-Exact codec)).1 in
    let f : IsSettled s.pending_revision s.journal = h.finished a in
    let i = h.installed in
    settled-IsPublished r s.journal c (ground arith) (ground arith) (ground arith)
