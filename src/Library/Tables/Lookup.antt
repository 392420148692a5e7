-- ===== src/Library/Tables/Lookup.antt =====
-- What each write of a table does to each lookup.
use h2hdb_ingest.Prelude.{
  ℕ, ◌≡◌, ◌↔◌, true, false, ◌&&◌, none, some, List, [], ◌∷◌, arith, ◌==◌, if◌then◌else◌, is_some,
  map_option, refl,
}
use h2hdb_ingest.Library.Tables.{
  Cursor, same_cursor, CurrentEntry, PendingEntry, PendingRemoval, find_current, upsert_current,
  delete_current, find_pending, insert_pending, update_pending, unactivated, stale, find_removal,
  delete_removal, start_removal, pending_conflict,
}

pub same_cursor_iff : (a b : Cursor) → (same_cursor a b ≡ true) ↔ (a ≡ b)
unfolding same_cursor
same_cursor_iff a b = (λ h. ground arith, λ h. ground arith)

pub find_current-upsert :
    (c : Cursor) (e : CurrentEntry) (es : List CurrentEntry)
    → find_current c (upsert_current e es)
      ≡ (if same_cursor c e.at then some e else find_current c es)
unfolding find_current upsert_current
find_current-upsert c e [] = refl
find_current-upsert c e (x ∷ xs) = ground (
  arith,
  same_cursor_iff c e.at,
  same_cursor_iff c x.at,
  same_cursor_iff e.at x.at,
  find_current-upsert c e xs,
)

pub find_current-delete :
    (c d : Cursor) (es : List CurrentEntry)
    → find_current c (delete_current d es) ≡ (if same_cursor d c then none else find_current c es)
unfolding find_current delete_current
find_current-delete c d [] = ground arith
find_current-delete c d (x ∷ xs) = ground (
  arith,
  same_cursor_iff d c,
  same_cursor_iff c x.at,
  same_cursor_iff d x.at,
  find_current-delete c d xs,
)

pub find_pending-insert :
    (r : ℕ) (c : Cursor) (e : PendingEntry) (es : List PendingEntry)
    → pending_conflict e es ≡ false
    → find_pending r c (insert_pending e es)
      ≡ (if e.revision == r && same_cursor c e.at then some e else find_pending r c es)
unfolding find_pending insert_pending pending_conflict
find_pending-insert r c e [] h = refl
find_pending-insert r c e (x ∷ xs) h = ground (
  arith,
  same_cursor_iff c e.at,
  same_cursor_iff c x.at,
  same_cursor_iff e.at x.at,
  find_pending-insert r c e xs,
)

-- An update that keeps the primary key.
pub find_pending-update :
    (r : ℕ) (c d : Cursor) (f : PendingEntry → PendingEntry) (es : List PendingEntry)
    → ((e : PendingEntry) → ((f e).revision ≡ e.revision) × ((f e).at ≡ e.at))
    → find_pending r c (update_pending r d f es)
      ≡ (if same_cursor d c then map_option f (find_pending r c es) else find_pending r c es)
unfolding find_pending update_pending
find_pending-update r c d f [] k = ground arith
find_pending-update r c d f (x ∷ xs) k = ground (
  arith,
  k x,
  same_cursor_iff d c,
  same_cursor_iff c x.at,
  same_cursor_iff d x.at,
  find_pending-update r c d f xs k,
)

-- Where no row is left to activate, every row of the revision is activated.
pub unactivated_none :
    (r : ℕ) (es : List PendingEntry) (c : Cursor) (e : PendingEntry)
    → unactivated r es ≡ []
    → find_pending r c es ≡ some e
    → e.activated ≡ true
unfolding unactivated find_pending
unactivated_none r [] c e h f = cc
unactivated_none r (x ∷ xs) c e h f = ground (arith, unactivated_none r xs c e)

-- Where no row is stale, every current row has its pending row.
pub stale_none :
    (r : ℕ) (ps : List PendingEntry) (es : List CurrentEntry) (c : Cursor) (e : CurrentEntry)
    → stale r ps es ≡ []
    → find_current c es ≡ some e
    → is_some (find_pending r c ps) ≡ true
unfolding stale find_current
stale_none r ps [] c e h f = cc
stale_none r ps (x ∷ xs) c e h f = ground (arith, same_cursor_iff c x.at, stale_none r ps xs c e)

pub find_removal-delete :
    (r : ℕ) (c d : Cursor) (es : List PendingRemoval)
    → find_removal r c (delete_removal r d es)
      ≡ (if same_cursor d c then none else find_removal r c es)
unfolding find_removal delete_removal
find_removal-delete r c d [] = ground arith
find_removal-delete r c d (x ∷ xs) = ground (
  arith,
  same_cursor_iff d c,
  same_cursor_iff c x.at,
  same_cursor_iff d x.at,
  find_removal-delete r c d xs,
)

-- Marking a removal as started leaves the rows under the same keys.
pub find_removal-start :
    (r : ℕ) (c d : Cursor) (es : List PendingRemoval)
    → is_some (find_removal r c (start_removal r d es)) ≡ is_some (find_removal r c es)
unfolding find_removal start_removal
find_removal-start r c d [] = refl
find_removal-start r c d (x ∷ xs) = ground (arith, find_removal-start r c d xs)
