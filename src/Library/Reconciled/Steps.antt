-- ===== src/Library/Reconciled/Steps.antt =====
-- Every transaction of an activation keeps the published rows exact.
use h2hdb_ingest.Prelude.{arith}
use h2hdb_ingest.Library.State.{Journal, CursorCodec}
use h2hdb_ingest.Library.Preserved.{IsPreserved}
use h2hdb_ingest.Library.Coherence.{IsCoherent, IsCoherent-preserved}
use h2hdb_ingest.Library.Revisions.{fresh, fresh-IsCoherent}
use h2hdb_ingest.Library.Reconciled.Rowset.{IsReconciled}
use h2hdb_ingest.Library.Reconciled.Stages.{
  open-IsReconciled, seal-IsReconciled, start-IsReconciled, ready-IsReconciled,
  complete-IsReconciled, append-IsReconciled, tokens-IsReconciled, purge-IsReconciled,
}
use h2hdb_ingest.Library.Reconciled.Work.{
  reserve-IsReconciled, publish-IsReconciled, plan-IsReconciled, authorize-IsReconciled,
  remove-IsReconciled,
}

module _ (codec : CursorCodec) where
  -- the invariant together with the coherence that it rests on
  abbrev pub Exact : Journal → Type 0
  Exact j = IsCoherent codec j × IsReconciled j

  pub Exact-preserved : IsPreserved codec Exact
  Exact-preserved =
      let c = IsCoherent-preserved codec in
      record {
        at_open = λ t q j j' o n h e.
            (c.at_open t q j j' o n h.0 e, open-IsReconciled codec t q j j' o n h.0 h.1 e);
        at_append = λ t page j j' i h e.
            (c.at_append t page j j' i h.0 e, append-IsReconciled codec t page j j' h.1 e);
        at_seal = λ t j j' h e. (c.at_seal t j j' h.0 e, seal-IsReconciled codec t j j' h.1 e);
        at_start = λ t j j' h e. (c.at_start t j j' h.0 e, start-IsReconciled codec t j j' h.1 e);
        at_reserve = λ t q n j j' plans h e. (
          c.at_reserve t q n j j' plans h.0 e,
          reserve-IsReconciled codec t q n j j' plans h.1 e,
        );
        at_publish = λ t q o os j j' a h e.
            (c.at_publish t q o os j j' a h.0 e, publish-IsReconciled codec t q o os j j' a h.1 e);
        at_plan = λ t q n j j' h e.
            (c.at_plan t q n j j' h.0 e, plan-IsReconciled codec t q n j j' h.1 e);
        at_authorize = λ t q n j j' plans h e. (
          c.at_authorize t q n j j' plans h.0 e,
          authorize-IsReconciled codec t q n j j' plans h.1 e,
        );
        at_remove = λ t q p ps j j' h e.
            (c.at_remove t q p ps j j' h.0 e, remove-IsReconciled codec t q p ps j j' h.1 e);
        at_ready =
            λ t q j j' h e. (c.at_ready t q j j' h.0 e, ready-IsReconciled codec t q j j' h.1 e);
        at_complete = λ t q j j' h e.
            (c.at_complete t q j j' h.0 e, complete-IsReconciled codec t q j j' h.1 e);
        at_tokens = λ ts j t h. (c.at_tokens ts j t h.0, tokens-IsReconciled codec ts j h.1);
        at_purge = λ j j' n h e. (c.at_purge j j' n h.0 e, purge-IsReconciled codec j j' n h.1 e);
      }

  pub fresh-Exact : Exact fresh.journal
  fresh-Exact = (fresh-IsCoherent codec, ground arith)
