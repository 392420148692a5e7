-- ===== src/Library/Revisions.antt =====
-- The revisions of the journal over any calls: none is lost, and none goes back.
use h2hdb_ingest.Prelude.{
  ℕ, ◌≡◌, ◌≤◌, false, Option, none, some, List, [], ◌∷◌, arith, ok, refl, inl, inr,
}
use h2hdb_ingest.Library.State.{
  Journal, Library, CursorCodec, journal_state, check_journal, idle, absent,
}
use h2hdb_ingest.Library.Spool.{Item, append_page, seal_journal, append_item, append_items}
use h2hdb_ingest.Library.Activation.{open_pending, complete_journal}
use h2hdb_ingest.Library.Install.{Install, reserve_installs}
use h2hdb_ingest.Library.Removal.{plan_removals, select_removals, reserve_removals}
use h2hdb_ingest.Library.Reconcile.{start_activating, become_ready}
use h2hdb_ingest.Library.Cleanup.{purge}
use h2hdb_ingest.Library.Preserved.{IsPreserved}
use h2hdb_ingest.Library.Calls.{Call, run, run-IsPreserved}
use h2hdb_ingest.Library.Inversion.{
  Result-cases, publish_page-writes, remove_page-writes, reserve_installs-reads,
}
use h2hdb_ingest.Library.Coherence.{IsCoherent, IsCoherent-preserved}
use h2hdb_ingest.Library.Coherence.Entries.{append_item-inserts}
use h2hdb_ingest.Library.Coherence.Frames.{
  reserve_each-Frame, terminalize_installs-Frame, terminalize_removals-Frame,
}

-- the library before its first activation
abbrev pub fresh : Library
fresh = record {
  journal = record {
    current_revision = none;
    current_receipt = none;
    pending_revision = none;
    pending_receipt = none;
    phase = idle;
    last_cursor = none;
    current_entries = [];
    pending_entries = [];
    pending_removals = [];
    tokens = [];
  };
  marker = absent;
  guarded = false;
  locked = false;
}

-- the installed revision is this one or a later one
abbrev pub AtLeast : ℕ → Option ℕ → Type 0
AtLeast r none = ⊥
AtLeast r (some c) = r ≤ c

append_items-current :
    (target : ℕ) (is : List Item) (j j' : Journal)
    → append_items target is j ≡ ok j'
    → j'.current_revision ≡ j.current_revision
unfolding append_items
append_items-current target [] j j' e = ground arith
append_items-current target (i ∷ is) j j' e = elim (Result-cases (append_item target i j)) [
  | inr (y, t) ↦ absurd (ground arith)
  | inl (k, t) ↦
      let (_, _, _, _, _, w) = append_item-inserts target i j k t in
      ground (arith, append_items-current target is k j' (ground arith))
]

module _ (codec : CursorCodec) where
  pub fresh-IsCoherent : IsCoherent codec fresh.journal
  unfolding journal_state
  fresh-IsCoherent = record { checked = refl; above = tt; known = tt }

  pub run-IsCoherent :
      (cs : List Call) (s : Library)
      → IsCoherent codec s.journal
      → IsCoherent codec (run codec cs s).journal
  run-IsCoherent = run-IsPreserved codec (IsCoherent-preserved codec)

-- After any calls on a fresh library, in any order and with any arguments, whether they return or
-- raise and whatever the disk answers, every check of the journal's state passes.
pub run-check_journal :
    (codec : CursorCodec) (cs : List Call)
    → let s = run codec cs fresh in check_journal codec s ≡ (ok tt, s)
unfolding check_journal
run-check_journal codec cs =
    let h = run-IsCoherent codec cs fresh (fresh-IsCoherent codec) in ground (arith, h.checked)

-- A page of the spool leaves every column of the state but the cursor.
append-current :
    (codec : CursorCodec) (target : ℕ) (page : List Item) (j j' : Journal)
    → append_page codec target page j ≡ ok j'
    → j'.current_revision ≡ j.current_revision
unfolding append_page
append-current codec target [] j j' e = elim (Result-cases (append_items target [] j)) [
  | inr (y, t) ↦ absurd (ground arith)
  | inl (k, t) ↦ ground (arith, append_items-current target [] j k t)
]
append-current codec target (i ∷ is) j j' e = elim (Result-cases (append_items target (i ∷ is) j)) [
  | inr (y, t) ↦ absurd (ground arith)
  | inl (k, t) ↦ ground (arith, append_items-current target (i ∷ is) j k t)
]

module _ (codec : CursorCodec) (r : ℕ) where
  -- a coherent journal whose installed revision is at least `r`
  abbrev Reached : Journal → Type 0
  Reached j = IsCoherent codec j × AtLeast r j.current_revision

  stays :
      (j j' : Journal)
      → j'.current_revision ≡ j.current_revision
      → AtLeast r j.current_revision
      → AtLeast r j'.current_revision
  stays j j' e h = rw e h

  advances :
      (target receipt : ℕ) (j j' : Journal)
      → Reached j
      → complete_journal codec target receipt j ≡ ok j'
      → AtLeast r j'.current_revision
  unfolding complete_journal
  advances target receipt j j' h e = ground (arith, h.0.above)

  reserve-current :
      (target receipt limit : ℕ) (j j' : Journal) (plans : List Install)
      → reserve_installs codec target receipt limit j ≡ ok (j', plans)
      → j'.current_revision ≡ j.current_revision
  reserve-current target receipt limit j j' plans e =
      let (_, w) = reserve_installs-reads codec target receipt limit j j' plans e in
      let f = reserve_each-Frame target receipt _ j j' plans w in f.current_revision

  Reached-preserved : IsPreserved codec Reached
  unfolding open_pending seal_journal start_activating plan_removals select_removals
      reserve_removals become_ready purge
  Reached-preserved =
      let c = IsCoherent-preserved codec in
      record {
        at_open = λ t q j j' o n h e. (c.at_open t q j j' o n h.0 e, stays j j' (ground arith) h.1);
        at_append = λ t page j j' i h e.
            (c.at_append t page j j' i h.0 e, stays j j' (append-current codec t page j j' e) h.1);
        at_seal = λ t j j' h e. (c.at_seal t j j' h.0 e, stays j j' (ground arith) h.1);
        at_start = λ t j j' h e. (c.at_start t j j' h.0 e, stays j j' (ground arith) h.1);
        at_reserve = λ t q n j j' plans h e. (
          c.at_reserve t q n j j' plans h.0 e,
          stays j j' (reserve-current t q n j j' plans e) h.1,
        );
        at_publish = λ t q o os j j' a h e.
            let (k, w, _, s) = publish_page-writes codec t q o os j j' e in
            let f = terminalize_installs-Frame (o ∷ os) j k w in
            (
              c.at_publish t q o os j j' a h.0 e,
              stays j j' (ground (arith, f.current_revision)) h.1,
            );
        at_plan = λ t q n j j' h e. (c.at_plan t q n j j' h.0 e, stays j j' (ground arith) h.1);
        at_authorize = λ t q n j j' plans h e.
            (c.at_authorize t q n j j' plans h.0 e, stays j j' (ground arith) h.1);
        at_remove = λ t q p ps j j' h e.
            let (k, d, w, _, s) = remove_page-writes codec t q p ps j j' e in
            let f = terminalize_removals-Frame t (p ∷ ps) j k w in
            (c.at_remove t q p ps j j' h.0 e, stays j j' (ground (arith, f.current_revision)) h.1);
        at_ready = λ t q j j' h e. (c.at_ready t q j j' h.0 e, stays j j' (ground arith) h.1);
        at_complete = λ t q j j' h e. (c.at_complete t q j j' h.0 e, advances t q j j' h e);
        at_tokens = λ ts j t h. (c.at_tokens ts j t h.0, h.1);
        at_purge = λ j j' n h e. (c.at_purge j j' n h.0 e, stays j j' (ground arith) h.1);
      }

at_least : (r : ℕ) (o : Option ℕ) → o ≡ some r → AtLeast r o
at_least r o e = ground arith

-- Whatever has happened before, and whatever calls come next, the installed revision is never lost
-- and never goes back to an older one.
pub run-current_revision :
    (codec : CursorCodec) (before_calls calls : List Call) (r : ℕ)
    → (run codec before_calls fresh).current_revision ≡ some r
    → AtLeast r (run codec calls (run codec before_calls fresh)).current_revision
run-current_revision codec before_calls calls r e =
    let s = run codec before_calls fresh in
    let h = run-IsCoherent codec before_calls fresh (fresh-IsCoherent codec) in
    (run-IsPreserved codec (Reached-preserved codec r) calls s (h, at_least r _ e)).1
