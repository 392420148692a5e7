-- ===== src/Library/Coherence/Entries.antt =====
-- The greatest cursor of a revision, and the revisions that have entries.
use h2hdb_ingest.Prelude.{
  zero, suc, ℕ, ◌≡◌, Bool, true, false, ◌||◌, Option, none, some, List, [], ◌∷◌, arith, leb, ◌==◌,
  same, refl, All, ok, Option-cases, inl, inr,
}
use h2hdb_ingest.Library.Tables.{
  Cursor, before, later, PendingEntry, greatest, insert_pending, update_pending, pending_conflict,
}
use h2hdb_ingest.Library.State.{Journal}
use h2hdb_ingest.Library.Cleanup.{drop}
use h2hdb_ingest.Library.Spool.{Item, entry_of, append_item, insert_entry}

abbrev pub not_above : ℕ → Option ℕ → Bool
not_above r none = false
not_above r (some c) = leb r c

-- a revision with entries is the pending one, or not above the current one
abbrev pub is_known : Option ℕ → Option ℕ → ℕ → Bool
is_known current pending r = same pending (some r) || not_above r current

abbrev pub AllKnown : Option ℕ → Option ℕ → List PendingEntry → Type 0
AllKnown current pending = All (λ e. is_known current pending e.revision ≡ true)

pub AllKnown-map :
    (c p c' p' : Option ℕ) (es : List PendingEntry)
    → ((r : ℕ) → is_known c p r ≡ true → is_known c' p' r ≡ true)
    → AllKnown c p es
    → AllKnown c' p' es
AllKnown-map c p c' p' [] f h = tt
AllKnown-map c p c' p' (e ∷ es) f h = (f e.revision h.0, AllKnown-map c p c' p' es f h.1)

pub AllKnown-insert :
    (c p : Option ℕ) (e : PendingEntry) (es : List PendingEntry)
    → is_known c p e.revision ≡ true
    → AllKnown c p es
    → AllKnown c p (insert_pending e es)
unfolding insert_pending
AllKnown-insert c p e [] k h = (k, tt)
AllKnown-insert c p e (x ∷ xs) k h = ground (arith, AllKnown-insert c p e xs k h.1)

pub AllKnown-update :
    (c p : Option ℕ) (r : ℕ) (d : Cursor) (f : PendingEntry → PendingEntry) (es : List PendingEntry)
    → ((e : PendingEntry) → (f e).revision ≡ e.revision)
    → AllKnown c p es
    → AllKnown c p (update_pending r d f es)
unfolding update_pending
AllKnown-update c p r d f [] k h = tt
AllKnown-update c p r d f (x ∷ xs) k h = ground (arith, k x, AllKnown-update c p r d f xs k h.1)

pub AllKnown-drop :
    (c p : Option ℕ) (n : ℕ) (es : List PendingEntry) → AllKnown c p es → AllKnown c p (drop n es)
unfolding drop
AllKnown-drop c p zero es h = h
AllKnown-drop c p (suc n) [] h = tt
AllKnown-drop c p (suc n) (x ∷ xs) h = AllKnown-drop c p n xs h.1

pub greatest-none :
    (c : Option ℕ) (t : ℕ) (es : List PendingEntry)
    → is_known c none t ≡ false
    → AllKnown c none es
    → greatest t es ≡ none
unfolding greatest
greatest-none c t [] k h = refl
greatest-none c t (x ∷ xs) k h = ground (arith, greatest-none c t xs k h.1)

later_comm :
    (a b : Bool) (c d : Cursor) (o : Option Cursor)
    → later a c (later b d o) ≡ later b d (later a c o)
unfolding later before
later_comm a b c d o = ground arith

pub greatest-insert :
    (r : ℕ) (e : PendingEntry) (es : List PendingEntry)
    → greatest r (insert_pending e es) ≡ later (e.revision == r) e.at (greatest r es)
unfolding greatest insert_pending
greatest-insert r e [] = refl
greatest-insert r e (x ∷ xs) = ground (
  arith,
  greatest-insert r e xs,
  later_comm (e.revision == r) (x.revision == r) e.at x.at (greatest r xs),
)

-- What the loop of `activate_page` adds for one item.
pub append_item-inserts :
    (target : ℕ) (i : Item) (j j' : Journal)
    → append_item target i j ≡ ok j'
    → (e : PendingEntry) × (e.revision ≡ target)
      × (e.at ≡ i.at)
      × (e.activated ≡ false)
      × (pending_conflict e j.pending_entries ≡ false)
      × (j' ≡ record j { pending_entries = insert_pending e j.pending_entries })
unfolding append_item insert_entry
append_item-inserts target i j j' h = elim (Option-cases i.key) [
  | inl n ↦ absurd (ground arith)
  | inr (key, k) ↦ elim (Option-cases i.modified_at) [
    | inl n ↦ absurd (ground arith)
    | inr (modified, m) ↦
        (entry_of target i key modified, refl, refl, refl, ground arith, ground arith)
  ]
]
