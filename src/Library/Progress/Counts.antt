-- ===== src/Library/Progress/Counts.antt =====
-- How much work an activation has left, and how much of it a row takes away.
use h2hdb_ingest.Prelude.{
  ℕ, ◌≡◌, ◌≤◌, ◌<◌, ◌+◌, ◌*◌, Bool, true, false, not, ◌&&◌, some, List, [], ◌∷◌, arith, refl, ok,
  Option-cases, Bool-cases, inl, inr, if◌then◌else◌, length, ◌==◌,
}
use h2hdb_ingest.Library.Tables.{
  Cursor, Identity, CurrentEntry, PendingEntry, PendingRemoval, find_pending, update_pending,
  find_current, upsert_current, delete_current, find_removal, same_cursor,
}
use h2hdb_ingest.Library.State.{Journal}
use h2hdb_ingest.Library.Install.{
  Install, Installed, reserve_install, started_entries, mark_started,
}
use h2hdb_ingest.Library.Publish.{mark_activated, terminalize_install, current_row}
use h2hdb_ingest.Library.Removal.{terminalize_removal}
use h2hdb_ingest.Library.Inversion.{reserve_install-writes, terminalize_install-writes}

-- the entries that are not activated
unfoldable pub open_count : List PendingEntry → ℕ
open_count [] = 0
open_count (x ∷ xs) = (if x.activated then 0 else 1) + open_count xs

-- An entry that is not activated may still add a current row, and then that row may be removed.
abbrev pub work : Journal → ℕ
work j = 2 * open_count j.pending_entries + length j.current_entries

started-count :
    (r : ℕ) (c : Cursor) (es : List PendingEntry)
    → open_count (update_pending r c mark_started es) ≡ open_count es
unfolding open_count update_pending
started-count r c [] = refl
started-count r c (x ∷ xs) = ground (arith, started-count r c xs)

started_entries-count :
    (r : ℕ) (c : Cursor) (fresh : Bool) (es : List PendingEntry)
    → open_count (started_entries r c fresh es) ≡ open_count es
started_entries-count r c true es = started-count r c es
started_entries-count r c false es = refl

activated_le :
    (r : ℕ) (c : Cursor) (i : Identity) (es : List PendingEntry)
    → open_count (update_pending r c (mark_activated i) es) ≤ open_count es
unfolding open_count update_pending
activated_le r c i [] = omega arith
activated_le r c i (x ∷ xs) = ground (arith, activated_le r c i xs)

activated_lt :
    (r : ℕ) (c : Cursor) (i : Identity) (es : List PendingEntry) (e : PendingEntry)
    → find_pending r c es ≡ some e
    → e.activated ≡ false
    → open_count (update_pending r c (mark_activated i) es) < open_count es
unfolding open_count update_pending find_pending
activated_lt r c i [] e f a = absurd (ground arith)
activated_lt r c i (x ∷ xs) e f a = elim (Bool-cases (x.revision == r && same_cursor c x.at)) [
  | inl h ↦ ground (arith, activated_le r c i xs)
  | inr h ↦ ground (arith, activated_lt r c i xs e)
]

upsert_current-length :
    (e : CurrentEntry) (xs : List CurrentEntry) → length (upsert_current e xs) ≤ length xs + 1
unfolding upsert_current
upsert_current-length e [] = omega arith
upsert_current-length e (x ∷ xs) = ground (arith, upsert_current-length e xs)

delete_current-length :
    (c : Cursor) (xs : List CurrentEntry) → length (delete_current c xs) ≤ length xs
unfolding delete_current
delete_current-length c [] = omega arith
delete_current-length c (x ∷ xs) = ground (arith, delete_current-length c xs)

delete_current-shorter :
    (c : Cursor) (xs : List CurrentEntry) (e : CurrentEntry)
    → find_current c xs ≡ some e
    → length (delete_current c xs) < length xs
unfolding delete_current find_current
delete_current-shorter c [] e h = absurd (ground arith)
delete_current-shorter c (x ∷ xs) e h =
    ground (arith, delete_current-shorter c xs e, delete_current-length c xs)

pub reserve_install-work :
    (r q : ℕ) (c : Cursor) (j j' : Journal) (plan : Install)
    → reserve_install r q c j ≡ ok (j', plan)
    → work j' ≡ work j
reserve_install-work r q c j j' plan h =
    let (e, _, w) = reserve_install-writes r q c j j' plan h in
    ground (arith, started_entries-count r e.at (not e.operation_started) j.pending_entries)

pub terminalize_install-work :
    (o : Installed) (j j' : Journal) → terminalize_install o j ≡ ok j' → work j' < work j
terminalize_install-work o j j' h =
    let (e, ts, f, a, w) = terminalize_install-writes o j j' h in
    let less =
      activated_lt o.plan.revision o.plan.at o.identity j.pending_entries e f (ground arith) in
    ground (arith, less, upsert_current-length (current_row o) j.current_entries)

pub terminalize_removal-work :
    (r : ℕ) (p : PendingRemoval) (j j' : Journal)
    → terminalize_removal r p j ≡ ok j'
    → work j' < work j
unfolding terminalize_removal
terminalize_removal-work r p j j' h = elim (Option-cases (find_removal r p.at j.pending_removals)) [
  | inl n ↦ absurd (ground arith)
  | inr (x, f) ↦ elim (Option-cases (find_current p.at j.current_entries)) [
    | inl n ↦ absurd (ground arith)
    | inr (c, g) ↦ ground (arith, delete_current-shorter p.at j.current_entries c g)
  ]
]
