-- ===== src/Library/Coherence/Frames.antt =====
-- The writes of a reconciliation leave the revisions, the phase and the cursor alone.
use h2hdb_ingest.Prelude.{ℕ, ◌≡◌, Option, List, arith, refl, ok, sym, ◌∙◌, subst}
use h2hdb_ingest.Library.Tables.{Cursor, PendingEntry, PendingRemoval}
use h2hdb_ingest.Library.State.{Journal}
use h2hdb_ingest.Library.Install.{Install, Installed, reserve_install, reserve_each, mark_started}
use h2hdb_ingest.Library.Publish.{terminalize_install, terminalize_installs, mark_activated}
use h2hdb_ingest.Library.Removal.{terminalize_removal, terminalize_removals}
use h2hdb_ingest.Library.Inversion.{
  reserve_install-writes, terminalize_install-writes, terminalize_removal-writes,
  reserve_each-induction, terminalize_installs-induction, terminalize_removals-induction,
}
use h2hdb_ingest.Library.Coherence.Entries.{AllKnown, AllKnown-update}

pub record Frame (j j' : Journal) : Type 0 where
  pub current_revision : j'.current_revision ≡ j.current_revision
  pub current_receipt : j'.current_receipt ≡ j.current_receipt
  pub pending_revision : j'.pending_revision ≡ j.pending_revision
  pub pending_receipt : j'.pending_receipt ≡ j.pending_receipt
  pub phase : j'.phase ≡ j.phase
  pub last_cursor : j'.last_cursor ≡ j.last_cursor
  pub known : (c p : Option ℕ) → AllKnown c p j.pending_entries → AllKnown c p j'.pending_entries

pub Frame-refl : (j : Journal) → Frame j j
Frame-refl j = record {
  current_revision = refl;
  current_receipt = refl;
  pending_revision = refl;
  pending_receipt = refl;
  phase = refl;
  last_cursor = refl;
  known = λ c p h. h;
}

pub Frame-trans : (i j k : Journal) → Frame i j → Frame j k → Frame i k
Frame-trans i j k f g = record {
  current_revision = g.current_revision ∙ f.current_revision;
  current_receipt = g.current_receipt ∙ f.current_receipt;
  pending_revision = g.pending_revision ∙ f.pending_revision;
  pending_receipt = g.pending_receipt ∙ f.pending_receipt;
  phase = g.phase ∙ f.phase;
  last_cursor = g.last_cursor ∙ f.last_cursor;
  known = λ c p h. g.known c p (f.known c p h);
}

reserve_install-Frame :
    (r q : ℕ) (d : Cursor) (j j' : Journal) (plan : Install)
    → reserve_install r q d j ≡ ok (j', plan)
    → Frame j j'
reserve_install-Frame r q d j j' plan h =
    let (e, _, w) = reserve_install-writes r q d j j' plan h in
    subst (Frame j) (sym w) (record {
      current_revision = refl;
      current_receipt = refl;
      pending_revision = refl;
      pending_receipt = refl;
      phase = refl;
      last_cursor = refl;
      known = λ c p k.
          ground (arith, AllKnown-update c p r e.at mark_started j.pending_entries (λ y. refl) k);
    })

terminalize_install-Frame :
    (o : Installed) (j j' : Journal) → terminalize_install o j ≡ ok j' → Frame j j'
terminalize_install-Frame o j j' h =
    let (e, ts, _, _, w) = terminalize_install-writes o j j' h in
    subst (Frame j) (sym w) (record {
      current_revision = refl;
      current_receipt = refl;
      pending_revision = refl;
      pending_receipt = refl;
      phase = refl;
      last_cursor = refl;
      known = λ c p.
          AllKnown-update c p o.plan.revision o.plan.at (mark_activated o.identity)
            j.pending_entries (λ y. refl);
    })

terminalize_removal-Frame :
    (r : ℕ) (p : PendingRemoval) (j j' : Journal) → terminalize_removal r p j ≡ ok j' → Frame j j'
terminalize_removal-Frame r p j j' h =
    let (_, _, w) = terminalize_removal-writes r p j j' h in
    subst (Frame j) (sym w) (record {
      current_revision = refl;
      current_receipt = refl;
      pending_revision = refl;
      pending_receipt = refl;
      phase = refl;
      last_cursor = refl;
      known = λ c p k. k;
    })

pub reserve_each-Frame :
    (r q : ℕ) (es : List PendingEntry) (j j' : Journal) (plans : List Install)
    → reserve_each r q es j ≡ ok (j', plans)
    → Frame j j'
reserve_each-Frame r q es j j' plans =
    reserve_each-induction (Frame j) r q
      (λ c k k' plan f h. Frame-trans j k k' f (reserve_install-Frame r q c k k' plan h)) es j j'
      plans (Frame-refl j)

pub terminalize_installs-Frame :
    (os : List Installed) (j j' : Journal) → terminalize_installs os j ≡ ok j' → Frame j j'
terminalize_installs-Frame os j j' =
    terminalize_installs-induction (Frame j)
      (λ o k k' f h. Frame-trans j k k' f (terminalize_install-Frame o k k' h)) os j j'
      (Frame-refl j)

pub terminalize_removals-Frame :
    (r : ℕ) (ps : List PendingRemoval) (j j' : Journal)
    → terminalize_removals r ps j ≡ ok j'
    → Frame j j'
terminalize_removals-Frame r ps j j' =
    terminalize_removals-induction (Frame j) r
      (λ p k k' f h. Frame-trans j k k' f (terminalize_removal-Frame r p k k' h)) ps j j'
      (Frame-refl j)
