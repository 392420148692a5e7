-- ===== src/Library/Coherence.antt =====
-- The journal never reports itself corrupt, and its revisions only grow.
pub mod Entries
pub mod Frames
pub mod Append
use h2hdb_ingest.Prelude.{
  ℕ, ◌≡◌, ◌<◌, ◌≤◌, Bool, true, false, not, ◌&&◌, ◌||◌, Option, none, some, List, [], ◌∷◌, arith,
  leb, ltb, ◌==◌, if◌then◌else◌, same, refl, All, Result, ok, err, Bool-cases, inl, inr, is_some,
  subst, sym,
}
use h2hdb_ingest.Library.Tables.{
  Cursor, before, later, PendingEntry, greatest, PendingRemoval, insert_pending,
}
use h2hdb_ingest.Library.State.{
  Token, Error, Journal, CursorCodec, journal_state, is_open, is_activating, encode, idle,
  open_spool, sealed, activating, ready,
}
use h2hdb_ingest.Library.Spool.{
  Item, append_item, append_items, append_page, increasing, seal_journal, last_item, with_cursor,
}
use h2hdb_ingest.Library.Activation.{is_older, open_pending, complete_journal}
use h2hdb_ingest.Library.Install.{
  Install, Installed, reserve_install, reserve_each, reserve_installs, is_reconciling,
}
use h2hdb_ingest.Library.Cleanup.{purge, max_journal_cleanup_items}
use h2hdb_ingest.Library.Tokens.{TokenStep}
use h2hdb_ingest.Library.Preserved.{AreFor, IsPreserved}
use h2hdb_ingest.Library.Publish.{publish_page, last_cursor_of}
use h2hdb_ingest.Library.Removal.{plan_removals, select_removals, reserve_removals, remove_page}
use h2hdb_ingest.Library.Reconcile.{start_activating, become_ready}
use h2hdb_ingest.Library.Inversion.{
  Result-cases, publish_page-writes, remove_page-writes, reserve_installs-reads,
}
use Append.{is_after, append_items-state, append_items-greatest, advances-is_after}
use Frames.{Frame, reserve_each-Frame, terminalize_installs-Frame, terminalize_removals-Frame}
use Entries.{
  AllKnown, is_known, AllKnown-map, AllKnown-drop, AllKnown-insert, AllKnown-update, greatest-none,
  greatest-insert, append_item-inserts,
}

-- the pending revision is above the current one
abbrev pub Above : Option ℕ → Option ℕ → Type 0
Above (some c) (some p) = c < p
Above _ _ = Unit

pub record IsCoherent (codec : CursorCodec) (j : Journal) : Type 0 where
  pub checked : journal_state codec j ≡ ok tt
  pub above : Above j.current_revision j.pending_revision
  pub known : AllKnown j.current_revision j.pending_revision j.pending_entries

module _ (codec : CursorCodec) where
  opened-fresh :
      (target : ℕ) (j : Journal)
      → j.pending_revision ≡ none
      → is_known j.current_revision none target ≡ false
      → AllKnown j.current_revision j.pending_revision j.pending_entries
      → greatest target j.pending_entries ≡ none
  opened-fresh target j p k h =
      greatest-none j.current_revision target j.pending_entries k (rw p at h)

  open-IsCoherent :
      (target receipt : ℕ) (j j' : Journal)
      → is_older target j.current_revision ≡ false
      → same j.current_revision (some target) ≡ false
      → IsCoherent codec j
      → open_pending target receipt j ≡ ok j'
      → IsCoherent codec j'
  unfolding open_pending journal_state
  open-IsCoherent target receipt j j' older new h e =
      let fresh : greatest target j.pending_entries ≡ none =
        opened-fresh target j (ground arith) (ground arith) h.known in
      let known =
        AllKnown-map j.current_revision j.pending_revision j.current_revision (some target)
          j.pending_entries (λ r k. ground arith) h.known in
      ground (arith, fresh, known)

  seal-IsCoherent :
      (target : ℕ) (j j' : Journal)
      → IsCoherent codec j
      → seal_journal codec target j ≡ ok j'
      → IsCoherent codec j'
  unfolding seal_journal journal_state
  seal-IsCoherent target j j' h e = ground arith

  complete-IsCoherent :
      (target receipt : ℕ) (j j' : Journal)
      → IsCoherent codec j
      → complete_journal codec target receipt j ≡ ok j'
      → IsCoherent codec j'
  unfolding complete_journal journal_state
  complete-IsCoherent target receipt j j' h e =
      let known =
        AllKnown-map j.current_revision j.pending_revision (some target) none j.pending_entries
          (λ r k. ground arith) h.known in
      ground (arith, known)

  -- While the spool is closed the journal's checks read no entry.
  Frame-IsCoherent :
      (j j' : Journal)
      → Frame j j'
      → is_open j.phase ≡ false
      → IsCoherent codec j
      → IsCoherent codec j'
  unfolding journal_state
  Frame-IsCoherent j j' f o h =
      ground (arith, f.known j.current_revision j.pending_revision h.known)

  start-IsCoherent :
      (target : ℕ) (j j' : Journal)
      → IsCoherent codec j
      → start_activating target j ≡ ok j'
      → IsCoherent codec j'
  unfolding start_activating journal_state
  start-IsCoherent target j j' h e = ground arith

  reserve-IsCoherent :
      (target receipt limit : ℕ) (j j' : Journal) (plans : List Install)
      → IsCoherent codec j
      → reserve_installs codec target receipt limit j ≡ ok (j', plans)
      → IsCoherent codec j'
  reserve-IsCoherent target receipt limit j j' plans h e =
      let (a, r) = reserve_installs-reads codec target receipt limit j j' plans e in
      Frame-IsCoherent j j' (reserve_each-Frame target receipt _ j j' plans r) (ground arith) h

  with_cursor-IsCoherent :
      (j : Journal) (c : Cursor)
      → is_activating j.phase ≡ true
      → IsCoherent codec j
      → IsCoherent codec (record j { last_cursor = some (codec.to_bytes c) })
  unfolding journal_state
  with_cursor-IsCoherent j c a h = ground (arith, codec.decode c)

  publish-IsCoherent :
      (target receipt : ℕ) (o : Installed) (os : List Installed) (j j' : Journal)
      → AreFor target (o ∷ os)
      → IsCoherent codec j
      → publish_page codec target receipt o os j ≡ ok j'
      → IsCoherent codec j'
  publish-IsCoherent target receipt o os j j' a h e =
      let (k, t, _, w) = publish_page-writes codec target receipt o os j j' e in
      let f = terminalize_installs-Frame (o ∷ os) j k t in
      subst (IsCoherent codec) (sym w) (
        with_cursor-IsCoherent k (last_cursor_of o os) (ground (arith, f.phase))
          (Frame-IsCoherent j k f (ground arith) h))

  plan-IsCoherent :
      (target receipt limit : ℕ) (j j' : Journal)
      → IsCoherent codec j
      → plan_removals codec target receipt limit j ≡ ok j'
      → IsCoherent codec j'
  unfolding plan_removals select_removals journal_state
  plan-IsCoherent target receipt limit j j' h e = ground arith

  authorize-IsCoherent :
      (target receipt limit : ℕ) (j j' : Journal) (plans : List PendingRemoval)
      → IsCoherent codec j
      → reserve_removals codec target receipt limit j ≡ ok (j', plans)
      → IsCoherent codec j'
  unfolding reserve_removals journal_state
  authorize-IsCoherent target receipt limit j j' plans h e = ground arith

  remove-IsCoherent :
      (target receipt : ℕ) (p : PendingRemoval) (ps : List PendingRemoval) (j j' : Journal)
      → IsCoherent codec j
      → remove_page codec target receipt p ps j ≡ ok j'
      → IsCoherent codec j'
  remove-IsCoherent target receipt p ps j j' h e =
      let (k, c, t, a, w) = remove_page-writes codec target receipt p ps j j' e in
      let f = terminalize_removals-Frame target (p ∷ ps) j k t in
      subst (IsCoherent codec) (sym w) (
        with_cursor-IsCoherent k c (ground (arith, f.phase))
          (Frame-IsCoherent j k f (ground arith) h))

  ready-IsCoherent :
      (target receipt : ℕ) (j j' : Journal)
      → IsCoherent codec j
      → become_ready codec target receipt j ≡ ok j'
      → IsCoherent codec j'
  unfolding become_ready journal_state
  ready-IsCoherent target receipt j j' h e = ground arith

  -- While the spool is open the cursor is the greatest entry.
  spool-cursor :
      (target : ℕ) (j : Journal)
      → j.pending_revision ≡ some target
      → is_open j.phase ≡ true
      → journal_state codec j ≡ ok tt
      → j.last_cursor ≡ encode codec (greatest target j.pending_entries)
  unfolding journal_state
  spool-cursor target j p o h = ground arith

  append-IsCoherent :
      (target : ℕ) (page : List Item) (j j' : Journal)
      → increasing codec page ≡ true
      → IsCoherent codec j
      → append_page codec target page j ≡ ok j'
      → IsCoherent codec j'
  unfolding append_page append_items journal_state
  append-IsCoherent target [] j j' inc h e =
      let same : j ≡ j' = ground arith in subst (IsCoherent codec) same h
  append-IsCoherent target (i ∷ is) j j' inc h e =
      elim (Result-cases (append_items target (i ∷ is) j)) [
        | inr (y, t) ↦ absurd (ground arith)
        | inl (k, t) ↦
            let pending : j.pending_revision ≡ some target = ground arith in
            let exact : j.last_cursor ≡ encode codec (greatest target j.pending_entries) =
              spool-cursor target j pending (ground arith) h.checked in
            let after : is_after i (greatest target j.pending_entries) ≡ true =
              advances-is_after codec i is (greatest target j.pending_entries) (ground arith) in
            ground (
              arith,
              append_items-state target (i ∷ is) j k j.current_revision (rw pending at h.known) t,
              append_items-greatest codec target i is j k inc after t,
              codec.decode (last_item i is).at,
            )
      ]

  tokens-IsCoherent :
      (tokens : List Token) (j : Journal)
      → TokenStep j.tokens tokens
      → IsCoherent codec j
      → IsCoherent codec (record j { tokens = tokens })
  unfolding journal_state
  tokens-IsCoherent tokens j s h = ground (arith, h.checked)

  purge-IsCoherent :
      (j j' : Journal)
      → j.pending_revision ≡ none
      → IsCoherent codec j
      → purge j ≡ ok j'
      → IsCoherent codec j'
  unfolding purge journal_state
  purge-IsCoherent j j' n h e =
      let known =
        AllKnown-drop j.current_revision j.pending_revision max_journal_cleanup_items
          j.pending_entries h.known in
      ground (arith, known, h.checked)

  pub IsCoherent-preserved : IsPreserved codec (IsCoherent codec)
  IsCoherent-preserved = record {
    at_open = open-IsCoherent;
    at_append = append-IsCoherent;
    at_seal = seal-IsCoherent;
    at_start = start-IsCoherent;
    at_reserve = reserve-IsCoherent;
    at_publish = publish-IsCoherent;
    at_plan = plan-IsCoherent;
    at_authorize = authorize-IsCoherent;
    at_remove = remove-IsCoherent;
    at_ready = ready-IsCoherent;
    at_complete = complete-IsCoherent;
    at_tokens = tokens-IsCoherent;
    at_purge = purge-IsCoherent;
  }
