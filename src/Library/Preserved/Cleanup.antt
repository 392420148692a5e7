-- ===== src/Library/Preserved/Cleanup.antt =====
-- `maintain_cleanup` keeps what its transactions keep.
use h2hdb_ingest.Prelude.{
  take, Result, none, List, [], ◌∷◌, ok, ◌≡◌, arith, inl, inr, ◌⊎◌, sym, subst,
}
use h2hdb_ingest.Library.State.{Error, Token, Journal, Library, ◌>>=◌, transaction, CursorCodec}
use h2hdb_ingest.Library.State.Keeps.{Keeps, Keeps-bind, Keeps-lift, Keeps-pure, Keeps-transaction}
use h2hdb_ingest.Library.Cleanup.{
  cleanable, clear_journal, clear_rows, purge, purge_entries, finish_cleanup, clean, select_cleanup,
  maintain_cleanup, max_cleanup_items,
}
use h2hdb_ingest.Library.Preserved.{IsPreserved, Stepped-IsPreserved}
use h2hdb_ingest.Library.Tokens.{clear_journal-Stepped}
use h2hdb_ingest.Library.Preserved.Methods.{check-Keeps}

module _ (codec : CursorCodec) {P : Journal → Type 0} (h : IsPreserved codec P) where
  clear-Keeps : (t : Token) → Keeps P (transaction (clear_journal t))
  clear-Keeps t =
      Keeps-transaction
        λ j j' p e. Stepped-IsPreserved codec h j j' (clear_journal-Stepped t j j' e) p

  rows-Keeps :
      (remove : Token → Result Error (Unit {0})) (rows : List Token)
      → Keeps P (clear_rows remove rows)
  unfolding clear_rows
  rows-Keeps remove [] = Keeps-pure _
  rows-Keeps remove (t ∷ ts) =
      Keeps-bind (Keeps-lift _) λ _. Keeps-bind (clear-Keeps t) λ _. rows-Keeps remove ts

  finish_cleanup-cases :
      (rows : List Token) (s : Library)
      → let j = (finish_cleanup rows s).1.journal in
        (j ≡ s.journal) ⊎ ((s.pending_revision ≡ none) × (purge s.journal ≡ ok j))
  unfolding finish_cleanup purge_entries ◌>>=◌ transaction purge
  finish_cleanup-cases rows s = ground arith

  finish_cleanup-Keeps : (rows : List Token) → Keeps P (finish_cleanup rows)
  finish_cleanup-Keeps rows = record {
    at = λ s p. elim (finish_cleanup-cases rows s) [
      | inl e ↦ subst P (sym e) p
      | inr (n, e) ↦ h.at_purge s.journal _ n p e
    ];
  }

  clean-Keeps :
      (remove : Token → Result Error (Unit {0})) (rows : List Token)
      → Keeps P (clean codec remove rows)
  unfolding clean
  clean-Keeps remove rows =
      Keeps-bind (rows-Keeps remove rows)
        λ _. Keeps-bind (check-Keeps codec h) λ _. finish_cleanup-Keeps rows

  select_cleanup-cases :
      (remove : Token → Result Error (Unit {0})) (s : Library)
      → ((select_cleanup codec remove s).1.journal ≡ s.journal)
        ⊎ (select_cleanup codec remove s
            ≡ clean codec remove (take max_cleanup_items (cleanable s.tokens)) s)
  unfolding select_cleanup
  select_cleanup-cases remove s = ground arith

  select-Keeps : (remove : Token → Result Error (Unit {0})) → Keeps P (select_cleanup codec remove)
  select-Keeps remove = record {
    at = λ s p. elim (select_cleanup-cases remove s) [
      | inl e ↦ subst P (sym e) p
      | inr e ↦ rw e ((clean-Keeps remove _).at s p)
    ];
  }

  pub maintain_cleanup-Keeps :
      (remove : Token → Result Error (Unit {0})) → Keeps P (maintain_cleanup codec remove)
  unfolding maintain_cleanup
  maintain_cleanup-Keeps remove = Keeps-bind (check-Keeps codec h) λ _. select-Keeps remove
