-- ===== src/Monitor/Rows.antt =====
-- The rows of the index: what a statement does to the row of a locator.
use h2hdb_ingest.Prelude.{
  ◌≡◌, ◌≤◌, ◌<◌, true, false, none, some, List, [], ◌∷◌, arith, refl, Bool-cases, inl, inr,
  if◌then◌else◌, length, subst,
}
use h2hdb_ingest.Prelude.Texts.{Text, same_text, same_text_refl, same_text-eq}
use h2hdb_ingest.Monitor.{Row, text_before, find_row, put_row, delete_row, delete_rows}
use h2hdb_ingest.Monitor.Order.{
  text_before_irrefl, text_before_total, AreAfter, AreOrdered, AreAfter-trans, is_in,
}

abbrev pub locators : List Row → List Text
locators [] = []
locators (r ∷ rs) = r.locator ∷ locators rs

-- the rows are in the order of the primary key
abbrev pub AreSorted : List Row → Type 0
AreSorted rs = AreOrdered (locators rs)

pub differ : (a b : Text) → text_before a b ≡ true → same_text b a ≡ false
differ a b h = elim (Bool-cases (same_text b a)) [
  | inr e ↦ e
  | inl e ↦
      let same : b ≡ a = same_text-eq b a e in
      absurd (ground (arith, text_before_irrefl a, h, same))
]

same_text_sym : (a b : Text) → same_text a b ≡ false → same_text b a ≡ false
same_text_sym a b h = elim (Bool-cases (same_text b a)) [
  | inr e ↦ e
  | inl e ↦ absurd (ground (arith, h, same_text_refl a, same_text-eq b a e))
]

find_row-after : (k : Text) (rs : List Row) → AreAfter k (locators rs) → find_row k rs ≡ none
unfolding find_row
find_row-after k [] h = refl
find_row-after k (r ∷ rs) h = ground (arith, differ k r.locator h.0, find_row-after k rs h.1)

pub find_row-locator : (k : Text) (rs : List Row) (r : Row) → find_row k rs ≡ some r → r.locator ≡ k
unfolding find_row
find_row-locator k [] r h = absurd (ground arith)
find_row-locator k (x ∷ xs) r h = elim (Bool-cases (same_text x.locator k)) [
  | inl e ↦ ground (arith, same_text-eq x.locator k e)
  | inr e ↦ find_row-locator k xs r (ground arith)
]

put_row-AreAfter :
    (a : Text) (r : Row) (rs : List Row)
    → text_before a r.locator ≡ true
    → AreAfter a (locators rs)
    → AreAfter a (locators (put_row r rs))
unfolding put_row
put_row-AreAfter a r [] h k = (h, tt)
put_row-AreAfter a r (x ∷ xs) h k = elim (Bool-cases (same_text x.locator r.locator)) [
  | inl e ↦ rw e (h, k.1)
  | inr e ↦ elim (Bool-cases (text_before r.locator x.locator)) [
    | inl f ↦ rw (e, f) (h, k)
    | inr f ↦ rw (e, f) (k.0, put_row-AreAfter a r xs h k.1)
  ]
]

pub put_row-AreSorted : (r : Row) (rs : List Row) → AreSorted rs → AreSorted (put_row r rs)
unfolding put_row AreOrdered
put_row-AreSorted r [] h = (tt, tt)
put_row-AreSorted r (x ∷ xs) h = elim (Bool-cases (same_text x.locator r.locator)) [
  | inl e ↦
      let same : x.locator ≡ r.locator = same_text-eq x.locator r.locator e in
      rw e (subst (λ a. AreAfter a (locators xs)) same h.0, h.1)
  | inr e ↦ elim (Bool-cases (text_before r.locator x.locator)) [
    | inl f ↦ rw (e, f) ((f, AreAfter-trans r.locator x.locator (locators xs) f h.0), h)
    | inr f ↦
        let b = text_before_total r.locator x.locator (same_text_sym x.locator r.locator e) f in
        rw (e, f) (put_row-AreAfter x.locator r xs b h.0, put_row-AreSorted r xs h.1)
  ]
]

pub find_row-put_row :
    (k : Text) (r : Row) (rs : List Row)
    → find_row k (put_row r rs) ≡ (if same_text r.locator k then some r else find_row k rs)
unfolding find_row put_row
find_row-put_row k r [] = refl
find_row-put_row k r (x ∷ xs) = ground (
  arith,
  find_row-put_row k r xs,
  same_text-eq x.locator r.locator,
  same_text-eq x.locator k,
  same_text-eq r.locator k,
  same_text_refl k,
)

delete_row-AreAfter :
    (a k : Text) (rs : List Row)
    → AreAfter a (locators rs)
    → AreAfter a (locators (delete_row k rs))
unfolding delete_row
delete_row-AreAfter a k [] h = tt
delete_row-AreAfter a k (r ∷ rs) h = elim (Bool-cases (same_text r.locator k)) [
  | inl e ↦ rw e (delete_row-AreAfter a k rs h.1)
  | inr e ↦ rw e (h.0, delete_row-AreAfter a k rs h.1)
]

delete_row-AreSorted : (k : Text) (rs : List Row) → AreSorted rs → AreSorted (delete_row k rs)
unfolding delete_row AreOrdered
delete_row-AreSorted k [] h = tt
delete_row-AreSorted k (r ∷ rs) h = elim (Bool-cases (same_text r.locator k)) [
  | inl e ↦ rw e (delete_row-AreSorted k rs h.1)
  | inr e ↦ rw e (delete_row-AreAfter r.locator k rs h.0, delete_row-AreSorted k rs h.1)
]

pub delete_rows-AreSorted :
    (ks : List Text) (rs : List Row) → AreSorted rs → AreSorted (delete_rows ks rs)
unfolding delete_rows
delete_rows-AreSorted [] rs h = h
delete_rows-AreSorted (k ∷ ks) rs h =
    delete_rows-AreSorted ks (delete_row k rs) (delete_row-AreSorted k rs h)

find_row-delete_row :
    (k l : Text) (rs : List Row)
    → find_row k (delete_row l rs) ≡ (if same_text l k then none else find_row k rs)
unfolding find_row delete_row
find_row-delete_row k l [] = ground arith
find_row-delete_row k l (r ∷ rs) = ground (
  arith,
  find_row-delete_row k l rs,
  same_text-eq r.locator l,
  same_text-eq r.locator k,
  same_text-eq l k,
  same_text_refl k,
)

pub find_row-delete_rows :
    (k : Text) (ls : List Text) (rs : List Row)
    → find_row k (delete_rows ls rs) ≡ (if is_in k ls then none else find_row k rs)
unfolding delete_rows is_in
find_row-delete_rows k [] rs = refl
find_row-delete_rows k (l ∷ ls) rs =
    ground (arith, find_row-delete_rows k ls (delete_row l rs), find_row-delete_row k l rs)

-- a row that is there is one row fewer without it
delete_row-length : (k : Text) (rs : List Row) → length (delete_row k rs) ≤ length rs
unfolding delete_row
delete_row-length k [] = omega arith
delete_row-length k (r ∷ rs) = ground (arith, delete_row-length k rs)

delete_rows-length : (ks : List Text) (rs : List Row) → length (delete_rows ks rs) ≤ length rs
unfolding delete_rows
delete_rows-length [] rs = omega arith
delete_rows-length (k ∷ ks) rs =
    omega (arith, delete_rows-length ks (delete_row k rs), delete_row-length k rs)

delete_row-shorter :
    (k : Text) (rs : List Row) (r : Row)
    → find_row k rs ≡ some r
    → length (delete_row k rs) < length rs
unfolding find_row delete_row
delete_row-shorter k [] r h = absurd (ground arith)
delete_row-shorter k (x ∷ xs) r h =
    ground (arith, delete_row-shorter k xs r, delete_row-length k xs)

pub delete_rows-shorter :
    (k : Text) (ks : List Text) (rs : List Row) (r : Row)
    → find_row k rs ≡ some r
    → length (delete_rows (k ∷ ks) rs) < length rs
unfolding delete_rows
delete_rows-shorter k ks rs r h =
    omega (arith, delete_rows-length ks (delete_row k rs), delete_row-shorter k rs r h)
