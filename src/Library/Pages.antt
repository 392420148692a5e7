-- ===== src/Library/Pages.antt =====
-- What the spool holds after its pages: every item that was accepted, and nothing overwritten.
use h2hdb_ingest.Prelude.{
  ℕ, ◌≡◌, false, some, List, [], ◌∷◌, arith, ok, All, ◌==◌, ◌&&◌, Option-cases, inl, inr,
}
use h2hdb_ingest.Library.Tables.{
  Cursor, StorageKey, PendingEntry, find_pending, insert_pending, pending_conflict, same_cursor,
}
use h2hdb_ingest.Library.Tables.Lookup.{same_cursor_iff, find_pending-insert}
use h2hdb_ingest.Library.State.{Journal, CursorCodec}
use h2hdb_ingest.Library.Spool.{
  Item, entry_of, append_item, append_items, append_page, insert_entry,
}
use h2hdb_ingest.Library.Inversion.{Result-cases}

-- the pending row of an item: the item's artifact, not started, not activated
abbrev pub IsSpooled : ℕ → List PendingEntry → Item → Type 0
IsSpooled target es i =
    (key : StorageKey) × (modified : ℕ) × (i.key ≡ some key)
    × (i.modified_at ≡ some modified)
    × (find_pending target i.at es ≡ some (entry_of target i key modified))

append_item-entry :
    (target : ℕ) (i : Item) (j j' : Journal)
    → append_item target i j ≡ ok j'
    → (key : StorageKey) × (modified : ℕ) × (i.key ≡ some key)
      × (i.modified_at ≡ some modified)
      × (pending_conflict (entry_of target i key modified) j.pending_entries ≡ false)
      × (j'.pending_entries ≡ insert_pending (entry_of target i key modified) j.pending_entries)
unfolding append_item insert_entry
append_item-entry target i j j' h = elim (Option-cases i.key) [
  | inl n ↦ absurd (ground arith)
  | inr (key, k) ↦ elim (Option-cases i.modified_at) [
    | inl n ↦ absurd (ground arith)
    | inr (m, n) ↦ (key, m, k, n, ground arith, ground arith)
  ]
]

-- A row that is found under the key of a new row is a conflict.
conflict_found :
    (r : ℕ) (c : Cursor) (e x : PendingEntry) (es : List PendingEntry)
    → pending_conflict x es ≡ false
    → find_pending r c es ≡ some e
    → (x.revision == r && same_cursor c x.at) ≡ false
unfolding find_pending pending_conflict
conflict_found r c e x [] h f = cc
conflict_found r c e x (y ∷ ys) h f = ground (
  arith,
  same_cursor_iff c x.at,
  same_cursor_iff c y.at,
  same_cursor_iff x.at y.at,
  conflict_found r c e x ys,
)

find_pending-kept :
    (r : ℕ) (c : Cursor) (e x : PendingEntry) (es : List PendingEntry)
    → pending_conflict x es ≡ false
    → find_pending r c es ≡ some e
    → find_pending r c (insert_pending x es) ≡ some e
unfolding find_pending pending_conflict
find_pending-kept r c e x es h f =
    ground (arith, find_pending-insert r c x es, conflict_found r c e x es h f)

-- A page never replaces a row: what a revision's spool held before, it holds after.
append_items-kept :
    (target r : ℕ) (c : Cursor) (e : PendingEntry) (is : List Item) (j j' : Journal)
    → append_items target is j ≡ ok j'
    → find_pending r c j.pending_entries ≡ some e
    → find_pending r c j'.pending_entries ≡ some e
unfolding append_items
append_items-kept target r c e [] j j' h f = ground arith
append_items-kept target r c e (i ∷ is) j j' h f = elim (Result-cases (append_item target i j)) [
  | inr (y, t) ↦ absurd (ground arith)
  | inl (k, t) ↦
      let (key, m, _, _, d, w) = append_item-entry target i j k t in
      append_items-kept target r c e is k j' (ground arith)
        (rw w (find_pending-kept r c e (entry_of target i key m) j.pending_entries d f))
]

append_items-IsSpooled :
    (target : ℕ) (is : List Item) (j j' : Journal)
    → append_items target is j ≡ ok j'
    → All (IsSpooled target j'.pending_entries) is
unfolding append_items
append_items-IsSpooled target [] j j' h = tt
append_items-IsSpooled target (i ∷ is) j j' h = elim (Result-cases (append_item target i j)) [
  | inr (y, t) ↦ absurd (ground arith)
  | inl (k, t) ↦
      let (key, m, a, b, d, w) = append_item-entry target i j k t in
      let rest : append_items target is k ≡ ok j' = ground arith in
      (
        (
          key,
          m,
          a,
          b,
          append_items-kept target target i.at (entry_of target i key m) is k j' rest (
              rw w (
                ground (
                  arith,
                  same_cursor_iff i.at i.at,
                  find_pending-insert target i.at (entry_of target i key m) j.pending_entries d,
                ))),
        ),
        append_items-IsSpooled target is k j' rest,
      )
]

append_page-items :
    (codec : CursorCodec) (target : ℕ) (page : List Item) (j j' : Journal)
    → append_page codec target page j ≡ ok j'
    → (k : Journal) × (append_items target page j ≡ ok k) × (j'.pending_entries ≡ k.pending_entries)
unfolding append_page
append_page-items codec target [] j j' h = elim (Result-cases (append_items target [] j)) [
  | inr (y, t) ↦ absurd (ground arith)
  | inl (k, t) ↦ (k, t, ground arith)
]
append_page-items codec target (i ∷ is) j j' h =
    elim (Result-cases (append_items target (i ∷ is) j)) [
      | inr (y, t) ↦ absurd (ground arith)
      | inl (k, t) ↦ (k, t, ground arith)
    ]

-- A page that is accepted is in the spool: each of its items is found under its own key, with its
-- own artifact, not started and not activated.
pub append_page-IsSpooled :
    (codec : CursorCodec) (target : ℕ) (page : List Item) (j j' : Journal)
    → append_page codec target page j ≡ ok j'
    → All (IsSpooled target j'.pending_entries) page
append_page-IsSpooled codec target page j j' h =
    let (k, a, w) = append_page-items codec target page j j' h in
    rw w (append_items-IsSpooled target page j k a)

-- A page that is accepted overwrites nothing: every pending row of any revision that was there
-- before is there after, unchanged.
pub append_page-kept :
    (codec : CursorCodec) (target r : ℕ) (page : List Item) (c : Cursor) (e : PendingEntry)
    (j j' : Journal)
    → append_page codec target page j ≡ ok j'
    → find_pending r c j.pending_entries ≡ some e
    → find_pending r c j'.pending_entries ≡ some e
append_page-kept codec target r page c e j j' h f =
    let (k, a, w) = append_page-items codec target page j j' h in
    rw w (append_items-kept target r c e page j k a f)
