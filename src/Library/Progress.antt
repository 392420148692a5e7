-- ===== src/Library/Progress.antt =====
-- An activation makes progress: each page of it leaves less work, until it is READY.
pub mod Counts
pub mod Pages
pub mod Methods
use h2hdb_ingest.Prelude.{
  if◌then◌else◌, ℕ, ◌≡◌, ◌<◌, Bool, true, false, List, [], ◌∷◌, arith, refl, Result, ok, err, inl,
  inr, length, ◌≤◌,
}
use h2hdb_ingest.Library.State.{
  Error, Library, Bytes, CursorCodec, Checkpoint, Status, ready_status, ready, Journal,
}
use h2hdb_ingest.Library.State.Yields.{Holds}
use h2hdb_ingest.Library.Install.{Disk}
use h2hdb_ingest.Library.Removal.{RemovalDisk}
use h2hdb_ingest.Library.Reconcile.{reconcile_page}
use h2hdb_ingest.Library.Inversion.{Result-cases}
use Counts.{work}
use Pages.{IsAdvanced}
use Methods.{reconcile_page-Yields}

-- what one call of `reconcile_page` meets, and how many rows it may take
pub record Page : Type 0 where
  pub disk : Disk
  pub removals : RemovalDisk
  pub limit : ℕ

abbrev is_ready_status : Status → Bool
is_ready_status ready_status = true
is_ready_status _ = false

module _ (codec : CursorCodec) (revision : ℕ) (receipt : Bytes) where
  abbrev reconcile_next : Page → Library → Result Error Checkpoint × Library
  reconcile_next p s = reconcile_page codec p.disk p.removals revision receipt p.limit s

  abbrev on_checkpoint :
      Result Error Checkpoint × Library
      → (Library → Result Error Bool × Library)
      → Result Error Bool × Library
  on_checkpoint (err e, s) next = (err e, s)
  on_checkpoint (ok c, s) next = if is_ready_status c.status then (ok true, s) else next s

  -- calls of `reconcile_page` until one is READY or raises: `ok false` if the list is at its end
  unfoldable pub reconcile_all : List Page → Library → Result Error Bool × Library
  reconcile_all [] s = (ok false, s)
  reconcile_all (p ∷ ps) s = on_checkpoint (reconcile_next p s) (reconcile_all ps)

  -- Each call of `reconcile_page` that returns ends READY, and says so, or leaves less work.
  reconcile_page-IsAdvanced :
      (p : Page) (s : Library) → Holds (IsAdvanced (work s.journal)) (reconcile_next p s)
  reconcile_page-IsAdvanced p s =
      (reconcile_page-Yields codec (work s.journal) p.disk p.removals revision receipt p.limit).at s
        (omega arith)

  abbrev pub IsFinished : Result Error Bool × Library → Type 0
  IsFinished (ok true, s) = s.phase ≡ ready
  IsFinished (ok false, s) = ⊥
  IsFinished (err e, s) = Unit

  on_checkpoint-IsFinished :
      (w : ℕ) (o : Result Error Checkpoint × Library) (next : Library → Result Error Bool × Library)
      → Holds (IsAdvanced w) o
      → ((s : Library) → work s.journal < w → IsFinished (next s))
      → IsFinished (on_checkpoint o next)
  on_checkpoint-IsFinished w (err e, s) next h k = tt
  on_checkpoint-IsFinished w (ok c, s) next (inl (e, p)) k = rw e p
  on_checkpoint-IsFinished w (ok c, s) next (inr (e, l)) k = rw e (k s l)

-- However the calls interact with the disk, a reconciliation that is called as often as it has work
-- left, and once more, ends READY or with an error that one of the calls raised: it never goes on
-- without an end.
pub reconcile_all-IsFinished :
    (codec : CursorCodec) (revision : ℕ) (receipt : Bytes) (pages : List Page) (s : Library)
    → work s.journal < length pages
    → IsFinished codec revision receipt (reconcile_all codec revision receipt pages s)
unfolding reconcile_all
reconcile_all-IsFinished codec revision receipt [] s h = absurd (omega arith)
reconcile_all-IsFinished codec revision receipt (p ∷ ps) s h =
    on_checkpoint-IsFinished codec revision receipt (work s.journal)
      (reconcile_next codec revision receipt p s) (reconcile_all codec revision receipt ps)
      (reconcile_page-IsAdvanced codec revision receipt p s)
      (λ t l. reconcile_all-IsFinished codec revision receipt ps t (omega (arith, h, l)))
