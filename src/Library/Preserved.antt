-- ===== src/Library/Preserved.antt =====
-- Invariants of the journal: what each transaction must keep.
pub mod Methods
pub mod Cleanup
pub mod Staging
use h2hdb_ingest.Prelude.{
  sym, subst, take, Result, Option-cases, ℕ, Bool, true, false, Option, none, some, List, [], ◌∷◌,
  ok, ◌≡◌, same, refl, arith, All, inl, inr, ◌⊎◌, sym, subst,
}
use h2hdb_ingest.Library.Tables.{PendingRemoval}
use h2hdb_ingest.Library.State.{
  Error, Token, Journal, Library, Bytes, ◌>>=◌, transaction, transaction_with, CursorCodec, Phase,
  idle, open_spool, sealed, activating, ready, require_guard, require_publication_lock,
  acquire_publication_lock, check_journal, Checkpoint,
}
use h2hdb_ingest.Library.State.Keeps.{
  Keeps, Keeps-bind, Keeps-lift, Keeps-check, Keeps-pure, Keeps-lifted, Keeps-quiet,
  Keeps-transaction, Keeps-transaction_with,
}
use h2hdb_ingest.Library.Marker.{verify_marker, write_marker, remove_marker, settle_marker}
use h2hdb_ingest.Library.Spool.{Item, increasing, append_page, activate_page, seal_journal, seal}
use h2hdb_ingest.Library.Activation.{
  is_older, open_pending, begin_at, begin, complete_journal, complete_at, complete,
}
use h2hdb_ingest.Library.Install.{Disk, Install, Installed, reserve_installs, verify_installs}
use h2hdb_ingest.Library.Publish.{
  publish_page, commit_verified, install_plans, commit_installs, activate_pending,
}
use h2hdb_ingest.Library.Removal.{
  RemovalDisk, plan_removals, reserve_removals, remove_page, remove_plans, commit_removals,
  remove_stale,
}
use h2hdb_ingest.Library.Tokens.{TokenStep, Stepped}
use h2hdb_ingest.Library.Cleanup.{
  cleanable, clear_token, clear_journal, clear_rows, purge, purge_entries, finish_cleanup, clean,
  select_cleanup, maintain_cleanup, max_cleanup_items,
}
use h2hdb_ingest.Library.Inversion.{Result-cases}
use h2hdb_ingest.Library.Reconcile.{
  start_activating, become_ready, reconcile_page, enter_phase, enter, finish_page, remove_rest,
  reconcile_rest,
}

-- every outcome is one of the activation of this revision
abbrev pub AreFor : ℕ → List Installed → Type 0
AreFor target = All (λ o. o.plan.revision ≡ target)

-- `P` survives every transaction of an activation.
pub record IsPreserved (codec : CursorCodec) (P : Journal → Type 0) : Type 0 where
  pub at_open :
      (target receipt : ℕ) (j j' : Journal)
      → is_older target j.current_revision ≡ false
      → same j.current_revision (some target) ≡ false
      → P j
      → open_pending target receipt j ≡ ok j'
      → P j'
  pub at_append :
      (target : ℕ) (page : List Item) (j j' : Journal)
      → increasing codec page ≡ true
      → P j
      → append_page codec target page j ≡ ok j'
      → P j'
  pub at_seal : (target : ℕ) (j j' : Journal) → P j → seal_journal codec target j ≡ ok j' → P j'
  pub at_start : (target : ℕ) (j j' : Journal) → P j → start_activating target j ≡ ok j' → P j'
  pub at_reserve :
      (target receipt limit : ℕ) (j j' : Journal) (plans : List Install)
      → P j
      → reserve_installs codec target receipt limit j ≡ ok (j', plans)
      → P j'
  pub at_publish :
      (target receipt : ℕ) (o : Installed) (os : List Installed) (j j' : Journal)
      → AreFor target (o ∷ os)
      → P j
      → publish_page codec target receipt o os j ≡ ok j'
      → P j'
  pub at_plan :
      (target receipt limit : ℕ) (j j' : Journal)
      → P j
      → plan_removals codec target receipt limit j ≡ ok j'
      → P j'
  pub at_authorize :
      (target receipt limit : ℕ) (j j' : Journal) (plans : List PendingRemoval)
      → P j
      → reserve_removals codec target receipt limit j ≡ ok (j', plans)
      → P j'
  pub at_remove :
      (target receipt : ℕ) (p : PendingRemoval) (ps : List PendingRemoval) (j j' : Journal)
      → P j
      → remove_page codec target receipt p ps j ≡ ok j'
      → P j'
  pub at_ready :
      (target receipt : ℕ) (j j' : Journal)
      → P j
      → become_ready codec target receipt j ≡ ok j'
      → P j'
  pub at_complete :
      (target receipt : ℕ) (j j' : Journal)
      → P j
      → complete_journal codec target receipt j ≡ ok j'
      → P j'
  pub at_tokens :
      (tokens : List Token) (j : Journal)
      → TokenStep j.tokens tokens
      → P j
      → P (record j { tokens = tokens })
  pub at_purge : (j j' : Journal) → j.pending_revision ≡ none → P j → purge j ≡ ok j' → P j'

-- A transaction on the tokens, by its step.
pub Stepped-IsPreserved :
    (codec : CursorCodec) {P : Journal → Type 0}
    → IsPreserved codec P
    → (j j' : Journal) → Stepped j j'
    → P j
    → P j'
Stepped-IsPreserved codec {P} h j j' s p = subst P (sym s.frame) (h.at_tokens s.tokens j s.step p)
