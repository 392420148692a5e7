-- ===== src/Library/Pending.antt =====
-- What becomes of a pending activation over any calls.
use h2hdb_ingest.Prelude.{
  ℕ, ◌≡◌, ◌<◌, Option, none, some, List, [], ◌∷◌, arith, ok, inl, inr, ◌⊎◌, subst, sym,
}
use h2hdb_ingest.Library.State.{Journal, CursorCodec}
use h2hdb_ingest.Library.Spool.{Item, append_page, seal_journal, append_item, append_items}
use h2hdb_ingest.Library.Activation.{open_pending, complete_journal}
use h2hdb_ingest.Library.Install.{Install, reserve_installs}
use h2hdb_ingest.Library.Removal.{plan_removals, select_removals, reserve_removals}
use h2hdb_ingest.Library.Reconcile.{start_activating, become_ready}
use h2hdb_ingest.Library.Cleanup.{purge}
use h2hdb_ingest.Library.Preserved.{IsPreserved}
use h2hdb_ingest.Library.Calls.{Call, run, run-IsPreserved}
use h2hdb_ingest.Library.Inversion.{
  Result-cases, publish_page-writes, remove_page-writes, reserve_installs-reads,
}
use h2hdb_ingest.Library.Coherence.{IsCoherent, IsCoherent-preserved}
use h2hdb_ingest.Library.Coherence.Entries.{append_item-inserts}
use h2hdb_ingest.Library.Coherence.Frames.{
  Frame, reserve_each-Frame, terminalize_installs-Frame, terminalize_removals-Frame,
}
use h2hdb_ingest.Library.Revisions.{fresh, fresh-IsCoherent, run-IsCoherent}

-- This activation is installed with its receipt, or a later one is.
abbrev pub IsInstalled : ℕ → ℕ → Option ℕ → Option ℕ → Type 0
IsInstalled r q none receipt = ⊥
IsInstalled r q (some c) none = r < c
IsInstalled r q (some c) (some receipt) = (r < c) ⊎ ((c ≡ r) × (receipt ≡ q))

-- the activation that is pending still is, or was completed
abbrev pub IsHeld : ℕ → ℕ → Journal → Type 0
IsHeld r q j =
    ((j.pending_revision ≡ some r) × (j.pending_receipt ≡ some q))
    ⊎ IsInstalled r q j.current_revision j.current_receipt

-- the columns of the two revisions
record AreSame (j j' : Journal) : Type 0 where
  current_revision : j'.current_revision ≡ j.current_revision
  current_receipt : j'.current_receipt ≡ j.current_receipt
  pending_revision : j'.pending_revision ≡ j.pending_revision
  pending_receipt : j'.pending_receipt ≡ j.pending_receipt

append_items-AreSame :
    (target : ℕ) (is : List Item) (j j' : Journal) → append_items target is j ≡ ok j' → AreSame j j'
unfolding append_items
append_items-AreSame target [] j j' e = ground arith
append_items-AreSame target (i ∷ is) j j' e = elim (Result-cases (append_item target i j)) [
  | inr (y, t) ↦ absurd (ground arith)
  | inl (k, t) ↦
      let (_, _, _, _, _, w) = append_item-inserts target i j k t in
      let h = append_items-AreSame target is k j' (ground arith) in
      record {
        current_revision = ground (arith, w, h.current_revision);
        current_receipt = ground (arith, w, h.current_receipt);
        pending_revision = ground (arith, w, h.pending_revision);
        pending_receipt = ground (arith, w, h.pending_receipt);
      }
]

append-AreSame :
    (codec : CursorCodec) (target : ℕ) (page : List Item) (j j' : Journal)
    → append_page codec target page j ≡ ok j'
    → AreSame j j'
unfolding append_page
append-AreSame codec target [] j j' e = elim (Result-cases (append_items target [] j)) [
  | inr (y, t) ↦ absurd (ground arith)
  | inl (k, t) ↦
      let h = append_items-AreSame target [] j k t in
      ground (arith, h.current_revision, h.current_receipt, h.pending_revision, h.pending_receipt)
]
append-AreSame codec target (i ∷ is) j j' e = elim (Result-cases (append_items target (i ∷ is) j)) [
  | inr (y, t) ↦ absurd (ground arith)
  | inl (k, t) ↦
      let h = append_items-AreSame target (i ∷ is) j k t in
      ground (arith, h.current_revision, h.current_receipt, h.pending_revision, h.pending_receipt)
]

-- the rows of a page, then its cursor
written-AreSame :
    (j k j' : Journal) (cursor : Option ℕ)
    → Frame j k
    → j' ≡ record k { last_cursor = cursor }
    → AreSame j j'
written-AreSame j k j' cursor f s = subst (AreSame j) (sym s) (record {
  current_revision = f.current_revision;
  current_receipt = f.current_receipt;
  pending_revision = f.pending_revision;
  pending_receipt = f.pending_receipt;
})

module _ (codec : CursorCodec) (r q : ℕ) where
  abbrev Held : Journal → Type 0
  Held j = IsCoherent codec j × IsHeld r q j

  stays : (j j' : Journal) → AreSame j j' → IsHeld r q j → IsHeld r q j'
  stays j j' a (inl (h, k)) =
      inl (ground (arith, a.pending_revision), ground (arith, a.pending_receipt))
  stays j j' a (inr h) = inr (rw a.current_revision (rw a.current_receipt h))

  opens :
      (target receipt : ℕ) (j j' : Journal)
      → IsHeld r q j
      → open_pending target receipt j ≡ ok j'
      → IsHeld r q j'
  unfolding open_pending
  opens target receipt j j' (inl (h, k)) e = absurd (ground arith)
  opens target receipt j j' (inr h) e = inr (ground arith)

  completes :
      (target receipt : ℕ) (j j' : Journal)
      → Held j
      → complete_journal codec target receipt j ≡ ok j'
      → IsHeld r q j'
  unfolding complete_journal
  completes target receipt j j' (c, inl (h, k)) e = inr (ground arith)
  completes target receipt j j' (c, inr h) e = inr (ground (arith, c.above))

  reserve-AreSame :
      (target receipt limit : ℕ) (j j' : Journal) (plans : List Install)
      → reserve_installs codec target receipt limit j ≡ ok (j', plans)
      → AreSame j j'
  reserve-AreSame target receipt limit j j' plans e =
      let (_, w) = reserve_installs-reads codec target receipt limit j j' plans e in
      let f = reserve_each-Frame target receipt _ j j' plans w in
      record {
        current_revision = f.current_revision;
        current_receipt = f.current_receipt;
        pending_revision = f.pending_revision;
        pending_receipt = f.pending_receipt;
      }

  Held-preserved : IsPreserved codec Held
  unfolding seal_journal start_activating plan_removals select_removals reserve_removals
      become_ready purge
  Held-preserved =
      let c = IsCoherent-preserved codec in
      record {
        at_open = λ t p j j' o n h e. (c.at_open t p j j' o n h.0 e, opens t p j j' h.1 e);
        at_append = λ t page j j' i h e.
            (c.at_append t page j j' i h.0 e, stays j j' (append-AreSame codec t page j j' e) h.1);
        at_seal = λ t j j' h e. (c.at_seal t j j' h.0 e, stays j j' (ground arith) h.1);
        at_start = λ t j j' h e. (c.at_start t j j' h.0 e, stays j j' (ground arith) h.1);
        at_reserve = λ t p n j j' plans h e. (
          c.at_reserve t p n j j' plans h.0 e,
          stays j j' (reserve-AreSame t p n j j' plans e) h.1,
        );
        at_publish = λ t p o os j j' a h e.
            let (k, w, _, s) = publish_page-writes codec t p o os j j' e in
            let f = terminalize_installs-Frame (o ∷ os) j k w in
            (c.at_publish t p o os j j' a h.0 e, stays j j' (written-AreSame j k j' _ f s) h.1);
        at_plan = λ t p n j j' h e. (c.at_plan t p n j j' h.0 e, stays j j' (ground arith) h.1);
        at_authorize = λ t p n j j' plans h e.
            (c.at_authorize t p n j j' plans h.0 e, stays j j' (ground arith) h.1);
        at_remove = λ t p x xs j j' h e.
            let (k, d, w, _, s) = remove_page-writes codec t p x xs j j' e in
            let f = terminalize_removals-Frame t (x ∷ xs) j k w in
            (c.at_remove t p x xs j j' h.0 e, stays j j' (written-AreSame j k j' _ f s) h.1);
        at_ready = λ t p j j' h e. (c.at_ready t p j j' h.0 e, stays j j' (ground arith) h.1);
        at_complete = λ t p j j' h e. (c.at_complete t p j j' h.0 e, completes t p j j' h e);
        at_tokens = λ ts j t h. (c.at_tokens ts j t h.0, h.1);
        at_purge = λ j j' n h e. (c.at_purge j j' n h.0 e, stays j j' (ground arith) h.1);
      }

-- Once an activation is pending, no call ever drops or replaces it: after any further calls, whatever
-- they raise and whatever the disk answers, it is still pending with its receipt, or it has been
-- installed with its receipt, or a later revision has been installed.
pub run-pending :
    (codec : CursorCodec) (before_calls calls : List Call) (r q : ℕ)
    → (run codec before_calls fresh).pending_revision ≡ some r
    → (run codec before_calls fresh).pending_receipt ≡ some q
    → IsHeld r q (run codec calls (run codec before_calls fresh)).journal
run-pending codec before_calls calls r q e f =
    let s = run codec before_calls fresh in
    let h = run-IsCoherent codec before_calls fresh (fresh-IsCoherent codec) in
    (run-IsPreserved codec (Held-preserved codec r q) calls s (h, inl (e, f))).1
