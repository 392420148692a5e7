-- ===== src/Library/Coherence/Append.antt =====
-- A page that is appended moves the greatest entry to its last item.
use h2hdb_ingest.Prelude.{
  ℕ, ◌≡◌, Bool, true, Option, none, some, List, [], ◌∷◌, arith, refl, ok, inl, inr, sym, subst,
}
use h2hdb_ingest.Library.Tables.{Cursor, before, later, greatest}
use h2hdb_ingest.Library.State.{Journal, CursorCodec, encode}
use h2hdb_ingest.Library.Spool.{Item, append_item, append_items, increasing, last_item, advances}
use h2hdb_ingest.Library.Inversion.{Result-cases}
use h2hdb_ingest.Library.Coherence.Entries.{
  AllKnown, AllKnown-insert, greatest-insert, append_item-inserts,
}

-- every entry of the revision is before the item
abbrev pub is_after : Item → Option Cursor → Bool
is_after i none = true
is_after i (some c) = before c i.at

later_after : (i : Item) (o : Option Cursor) → is_after i o ≡ true → later true i.at o ≡ some i.at
unfolding later
later_after i o h = ground arith

append_item-greatest :
    (target : ℕ) (i : Item) (j j' : Journal)
    → is_after i (greatest target j.pending_entries) ≡ true
    → append_item target i j ≡ ok j'
    → greatest target j'.pending_entries ≡ some i.at
append_item-greatest target i j j' aft h =
    let (e, r, a, _, _, w) = append_item-inserts target i j j' h in
    ground (
      arith,
      greatest-insert target e j.pending_entries,
      later_after i (greatest target j.pending_entries) aft,
    )

-- Every state column is kept, and the entries stay known where the target revision is pending.
pub append_items-state :
    (target : ℕ) (is : List Item) (j j' : Journal) (c : Option ℕ)
    → AllKnown c (some target) j.pending_entries
    → append_items target is j ≡ ok j'
    → AllKnown c (some target) j'.pending_entries
      × (j' ≡ record j { pending_entries = j'.pending_entries })
unfolding append_items
append_items-state target [] j j' c k h = ground arith
append_items-state target (i ∷ is) j j' c k h = elim (Result-cases (append_item target i j)) [
  | inr (y, s) ↦ absurd (ground arith)
  | inl (m, s) ↦
      let (e, r, a, _, _, w) = append_item-inserts target i j m s in
      ground (
        arith,
        append_items-state target is m j' c
            (subst (λ (n : Journal). AllKnown c (some target) n.pending_entries) (sym w)
              (AllKnown-insert c (some target) e j.pending_entries (ground arith) k))
            (ground arith),
      )
]

module _ (codec : CursorCodec) where
  pub append_items-greatest :
      (target : ℕ) (i : Item) (is : List Item) (j j' : Journal)
      → increasing codec (i ∷ is) ≡ true
      → is_after i (greatest target j.pending_entries) ≡ true
      → append_items target (i ∷ is) j ≡ ok j'
      → greatest target j'.pending_entries ≡ some (last_item i is).at
  unfolding append_items increasing
  append_items-greatest target i [] j j' inc aft h =
      append_item-greatest target i j j' aft (elim (Result-cases (append_item target i j)) [
        | inr (y, s) ↦ absurd (ground arith)
        | inl (m, s) ↦ ground arith
      ])
  append_items-greatest target i (k ∷ ks) j j' inc aft h =
      elim (Result-cases (append_item target i j)) [
        | inr (y, s) ↦ absurd (ground arith)
        | inl (m, s) ↦
            let g = append_item-greatest target i j m aft s in
            append_items-greatest target k ks m j' (ground arith)
              (ground (arith, g, codec.order i.at k.at)) (ground arith)
      ]

  -- The test against the stored cursor, where that is the greatest entry.
  pub advances-is_after :
      (i : Item) (is : List Item) (o : Option Cursor)
      → advances codec (i ∷ is) (encode codec o) ≡ true
      → is_after i o ≡ true
  advances-is_after i is none h = refl
  advances-is_after i is (some c) h = ground (arith, codec.order c i.at)
