-- ===== src/Library/Calls.antt =====
-- Any sequence of calls of the library, and the invariants that survive it.
use h2hdb_ingest.Prelude.{Option, ℕ, Result, true, false, List, [], ◌∷◌}
use h2hdb_ingest.Library.State.{Error, Token, Journal, Library, Bytes, CursorCodec}
use h2hdb_ingest.Library.Spool.{Item, activate_page, seal}
use h2hdb_ingest.Library.Activation.{begin, complete}
use h2hdb_ingest.Library.Install.{Disk}
use h2hdb_ingest.Library.Removal.{RemovalDisk}
use h2hdb_ingest.Library.Reconcile.{reconcile_page}
use h2hdb_ingest.Library.Cleanup.{maintain_cleanup}
use h2hdb_ingest.Library.Preserved.{IsPreserved}
use h2hdb_ingest.Library.Preserved.Methods.{
  begin-Keeps, activate_page-Keeps, seal-Keeps, reconcile_page-Keeps, complete-Keeps,
}
use h2hdb_ingest.Library.Staging.{StageDisk, protect, release}
use h2hdb_ingest.Library.Tables.{StorageKey}
use h2hdb_ingest.Library.Preserved.Staging.{protect-Keeps, release-Keeps}
use h2hdb_ingest.Library.Preserved.Cleanup.{maintain_cleanup-Keeps}

-- One call of the adapter; `guard` and `unguard` enter and leave its `publication_guard`.
pub data Call : Type 0 where
  begin_call : ℕ → Bytes → Call
  page_call : ℕ → List Item → Call
  seal_call : ℕ → Call
  reconcile_call : Disk → RemovalDisk → ℕ → Bytes → ℕ → Call
  complete_call : ℕ → Bytes → Call
  cleanup_call : (Token → Result Error (Unit {0})) → Call
  protect_call : StageDisk → Option StorageKey → Bytes → ℕ → Option ℕ → Bytes → Call
  release_call : StageDisk → Option StorageKey → Bytes → ℕ → Bytes → Call
  guard unguard : Call

unfoldable pub perform : CursorCodec → Call → Library → Library
perform codec (begin_call r b) s = (begin codec r b s).1
perform codec (page_call r page) s = (activate_page codec r page s).1
perform codec (seal_call r) s = (seal codec r s).1
perform codec (reconcile_call d m r b limit) s = (reconcile_page codec d m r b limit s).1
perform codec (complete_call r b) s = (complete codec r b s).1
perform codec (cleanup_call remove) s = (maintain_cleanup codec remove s).1
perform codec (protect_call d k x n m t) s = (protect d k x n m t s).1
perform codec (release_call d k x n t) s = (release d codec k x n t s).1
perform codec guard s = record s { guarded = true }
perform codec unguard s = record s { guarded = false; locked = false }

unfoldable pub run : CursorCodec → List Call → Library → Library
run codec [] s = s
run codec (c ∷ cs) s = run codec cs (perform codec c s)

pub perform-IsPreserved :
    (codec : CursorCodec) {P : Journal → Type 0}
    → IsPreserved codec P
    → (c : Call) (s : Library) → P s.journal
    → P (perform codec c s).journal
unfolding perform
perform-IsPreserved codec h (begin_call r b) s p = (begin-Keeps codec h r b).at s p
perform-IsPreserved codec h (page_call r page) s p = (activate_page-Keeps codec h r page).at s p
perform-IsPreserved codec h (seal_call r) s p = (seal-Keeps codec h r).at s p
perform-IsPreserved codec h (reconcile_call d m r b limit) s p =
    (reconcile_page-Keeps codec h d m r b limit).at s p
perform-IsPreserved codec h (complete_call r b) s p = (complete-Keeps codec h r b).at s p
perform-IsPreserved codec h (cleanup_call remove) s p =
    (maintain_cleanup-Keeps codec h remove).at s p
perform-IsPreserved codec h (protect_call d k x n m t) s p =
    (protect-Keeps codec h d k x n m t).at s p
perform-IsPreserved codec h (release_call d k x n t) s p = (release-Keeps codec h d k x n t).at s p
perform-IsPreserved codec h guard s p = p
perform-IsPreserved codec h unguard s p = p

pub run-IsPreserved :
    (codec : CursorCodec) {P : Journal → Type 0}
    → IsPreserved codec P
    → (cs : List Call) (s : Library) → P s.journal
    → P (run codec cs s).journal
unfolding run
run-IsPreserved codec h [] s p = p
run-IsPreserved codec h (c ∷ cs) s p =
    run-IsPreserved codec h cs (perform codec c s) (perform-IsPreserved codec h c s p)
