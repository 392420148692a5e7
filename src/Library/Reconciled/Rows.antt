-- ===== src/Library/Reconciled/Rows.antt =====
-- The pending removals: rows of the pending revision that no pending entry replaces.
use h2hdb_ingest.Prelude.{
  ℕ, ◌≡◌, true, false, Option, none, some, List, [], ◌∷◌, ◌++◌, arith, refl, same, take, map, All,
  Bool-cases, inl, inr, zero, suc,
}
use h2hdb_ingest.Library.Tables.{
  Cursor, CurrentEntry, PendingEntry, PendingRemoval, find_pending, find_removal, removals_of,
  start_removal, delete_removal, stale,
}
use h2hdb_ingest.Library.Tables.Lookup.{same_cursor_iff}
use h2hdb_ingest.Library.Removal.{removal_of, start_each}
use h2hdb_ingest.Library.Coherence.Entries.{is_known, AllKnown}

abbrev pub IsStale : Option ℕ → List PendingEntry → PendingRemoval → Type 0
IsStale pending es x =
    (same pending (some x.revision) ≡ true) × (find_pending x.revision x.at es ≡ none)

abbrev pub AllStale : Option ℕ → List PendingEntry → List PendingRemoval → Type 0
AllStale pending es = All (IsStale pending es)

pub AllStale-find :
    (r : ℕ) (c : Cursor) (p : Option ℕ) (es : List PendingEntry) (xs : List PendingRemoval)
    (x : PendingRemoval)
    → AllStale p es xs
    → find_removal r c xs ≡ some x
    → find_pending r c es ≡ none
unfolding find_removal
AllStale-find r c p es [] x h f = cc
AllStale-find r c p es (y ∷ ys) x h f =
    ground (arith, same_cursor_iff c y.at, AllStale-find r c p es ys x h.1)

pub AllStale-empty :
    (r : ℕ) (es : List PendingEntry) (xs : List PendingRemoval)
    → AllStale (some r) es xs
    → removals_of r xs ≡ []
    → xs ≡ []
unfolding removals_of
AllStale-empty r es [] h e = refl
AllStale-empty r es (x ∷ xs) h e = ground arith

pub AllStale-delete :
    (r : ℕ) (c : Cursor) (p : Option ℕ) (es : List PendingEntry) (xs : List PendingRemoval)
    → AllStale p es xs
    → AllStale p es (delete_removal r c xs)
unfolding delete_removal
AllStale-delete r c p es [] h = tt
AllStale-delete r c p es (x ∷ xs) h = ground (arith, AllStale-delete r c p es xs h.1)

AllStale-start :
    (r : ℕ) (c : Cursor) (p : Option ℕ) (es : List PendingEntry) (xs : List PendingRemoval)
    → AllStale p es xs
    → AllStale p es (start_removal r c xs)
unfolding start_removal
AllStale-start r c p es [] h = tt
AllStale-start r c p es (x ∷ xs) h = ground (arith, AllStale-start r c p es xs h.1)

pub AllStale-start_each :
    (r : ℕ) (p : Option ℕ) (es : List PendingEntry) (ps xs : List PendingRemoval)
    → AllStale p es xs
    → AllStale p es (start_each r ps xs)
unfolding start_each
AllStale-start_each r p es [] xs h = h
AllStale-start_each r p es (q ∷ qs) xs h = elim (Bool-cases q.operation_started) [
  | inl s ↦ rw s (AllStale-start_each r p es qs xs h)
  | inr s ↦
      rw s
        (AllStale-start_each r p es qs (start_removal r q.at xs) (AllStale-start r q.at p es xs h))
]

AllStale-append :
    (p : Option ℕ) (es : List PendingEntry) (xs ys : List PendingRemoval)
    → AllStale p es xs
    → AllStale p es ys
    → AllStale p es (xs ++ ys)
AllStale-append p es [] ys h k = k
AllStale-append p es (x ∷ xs) ys h k = (h.0, AllStale-append p es xs ys h.1 k)

-- Every row of the selection has no pending entry.
AllUnmatched : ℕ → List PendingEntry → List CurrentEntry → Type 0
AllUnmatched r es = All (λ e. find_pending r e.at es ≡ none)

stale_unmatched :
    (r : ℕ) (es : List PendingEntry) (cs : List CurrentEntry) → AllUnmatched r es (stale r es cs)
unfolding AllUnmatched stale
stale_unmatched r es [] = tt
stale_unmatched r es (x ∷ xs) = ground (arith, stale_unmatched r es xs)

take_unmatched :
    (n r : ℕ) (es : List PendingEntry) (cs : List CurrentEntry)
    → AllUnmatched r es cs
    → AllUnmatched r es (take n cs)
unfolding AllUnmatched
take_unmatched zero r es cs h = tt
take_unmatched (suc n) r es [] h = tt
take_unmatched (suc n) r es (x ∷ xs) h = (h.0, take_unmatched n r es xs h.1)

map_stale :
    (r : ℕ) (es : List PendingEntry) (cs : List CurrentEntry)
    → AllUnmatched r es cs
    → AllStale (some r) es (map (removal_of r) cs)
unfolding AllUnmatched
map_stale r es [] h = tt
map_stale r es (x ∷ xs) h = ((ground arith, h.0), map_stale r es xs h.1)

pub AllStale-select :
    (r n : ℕ) (es : List PendingEntry) (cs : List CurrentEntry) (xs : List PendingRemoval)
    → AllStale (some r) es xs
    → AllStale (some r) es (xs ++ map (removal_of r) (take n (stale r es cs)))
AllStale-select r n es cs xs h =
    AllStale-append (some r) es xs _ h
      (map_stale r es _ (take_unmatched n r es _ (stale_unmatched r es cs)))

-- The rows of a revision that has none.
pub find_pending-unknown :
    (c : Option ℕ) (t : ℕ) (d : Cursor) (es : List PendingEntry)
    → is_known c none t ≡ false
    → AllKnown c none es
    → find_pending t d es ≡ none
unfolding find_pending
find_pending-unknown c t d [] k h = refl
find_pending-unknown c t d (x ∷ xs) k h = ground (arith, find_pending-unknown c t d xs k h.1)
