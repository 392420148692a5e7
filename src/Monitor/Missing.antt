-- ===== src/Monitor/Missing.antt =====
-- The pages of locators that a pass has not seen, and what their deletion leaves.
use h2hdb_ingest.Prelude.{
  ℕ, ◌≡◌, true, false, not, ◌&&◌, Option, none, some, List, [], ◌∷◌, arith, refl, Bool-cases, inl,
  inr, ◌⊎◌, ◌==◌, if◌then◌else◌, take, ap, subst, ◌∙◌,
}
use h2hdb_ingest.Prelude.Texts.{Text, same_text, same_text_refl, same_text-eq}
use h2hdb_ingest.Monitor.{Row, text_before, find_row, missing, delete_rows, last_of}
use h2hdb_ingest.Monitor.Order.{
  AreAfter, AreOrdered, is_in, AreAfter-is_in, page-covers, is_in-page,
}
use h2hdb_ingest.Monitor.Rows.{locators, AreSorted, find_row-delete_rows, differ}

missing-AreAfter :
    (g : ℕ) (a after : Text) (rs : List Row)
    → AreAfter a (locators rs)
    → AreAfter a (missing g after rs)
unfolding missing
missing-AreAfter g a after [] h = tt
missing-AreAfter g a after (r ∷ rs) h =
    elim (Bool-cases (not (r.seen == g) && text_before after r.locator)) [
      | inl e ↦ rw e (h.0, missing-AreAfter g a after rs h.1)
      | inr e ↦ rw e (missing-AreAfter g a after rs h.1)
    ]

missing-AreOrdered :
    (g : ℕ) (after : Text) (rs : List Row) → AreSorted rs → AreOrdered (missing g after rs)
unfolding missing AreOrdered
missing-AreOrdered g after [] h = tt
missing-AreOrdered g after (r ∷ rs) h =
    elim (Bool-cases (not (r.seen == g) && text_before after r.locator)) [
      | inl e ↦ rw e (missing-AreAfter g r.locator after rs h.0, missing-AreOrdered g after rs h.1)
      | inr e ↦ rw e (missing-AreOrdered g after rs h.1)
    ]

-- Every locator of a page is one of a row that was not seen.
pub missing-find_row :
    (g : ℕ) (after k : Text) (rs : List Row)
    → AreSorted rs
    → is_in k (missing g after rs) ≡ true
    → (r : Row) × (find_row k rs ≡ some r) × ((r.seen == g) ≡ false)
unfolding missing find_row is_in AreOrdered
missing-find_row g after k [] h m = absurd (ground arith)
missing-find_row g after k (r ∷ rs) h m = elim (Bool-cases (same_text r.locator k)) [
  | inl e ↦ elim (Bool-cases (r.seen == g)) [
    | inr s ↦ (r, ground arith, s)
    | inl s ↦
        let same : r.locator ≡ k = same_text-eq r.locator k e in
        let b =
          AreAfter-is_in r.locator k (missing g after rs)
            (missing-AreAfter g r.locator after rs h.0) (ground arith) in
        absurd (ground (arith, differ r.locator k b, same, same_text_refl k))
  ]
  | inr e ↦ let (x, f, s) = missing-find_row g after k rs h.1 (ground arith) in (x, ground arith, s)
]

-- Every row that was not seen, and is after the last page, is in the next one.
pub missing-is_in :
    (g : ℕ) (after k : Text) (rs : List Row) (r : Row)
    → find_row k rs ≡ some r
    → (r.seen == g) ≡ false
    → text_before after k ≡ true
    → is_in k (missing g after rs) ≡ true
unfolding missing find_row is_in
missing-is_in g after k [] r h s b = absurd (ground arith)
missing-is_in g after k (x ∷ xs) r h s b = elim (Bool-cases (same_text x.locator k)) [
  | inl e ↦
      let same : x.locator ≡ k = same_text-eq x.locator k e in
      let found : x ≡ r = ground arith in
      ground (arith, ap (λ (y : Row). y.seen) found, ap (λ l. text_before after l) same)
  | inr e ↦ ground (arith, missing-is_in g after k xs r)
]

-- the row, if the pass has seen it
abbrev pub keep : ℕ → Option Row → Option Row
keep g none = none
keep g (some r) = if r.seen == g then some r else none

pub List-cases : {A : Type 0} (xs : List A) → (xs ≡ []) ⊎ ((x : A) × (ys : List A) × (xs ≡ x ∷ ys))
List-cases [] = inl refl
List-cases (x ∷ xs) = inr (x, xs, refl)

-- the rows that were not seen are after the last page
abbrev pub AreLeft : ℕ → Text → List Row → Type 0
AreLeft g after rs =
    (k : Text) (r : Row)
    → find_row k rs ≡ some r
    → (r.seen == g) ≡ false
    → text_before after k ≡ true

pub delete_rows-AreLeft :
    (g : ℕ) (after x : Text) (t : List Text) (rs : List Row)
    → AreSorted rs
    → AreLeft g after rs
    → missing g after rs ≡ x ∷ t
    → AreLeft g (last_of x (take 127 t)) (delete_rows (x ∷ take 127 t) rs)
delete_rows-AreLeft g after x t rs o l m k r f s =
    let page = x ∷ take 127 t in
    let d = find_row-delete_rows k page rs in
    elim (Bool-cases (is_in k page)) [
      | inl e ↦ absurd (ground arith)
      | inr e ↦
          let found : find_row k rs ≡ some r = ground arith in
          let inside = missing-is_in g after k rs r found s (l k r found s) in
          let ordered = missing-AreOrdered g after rs o in
          elim (page-covers 127 k x t (subst AreOrdered m ordered) (ground arith)) [
            | inl c ↦ absurd (ground arith)
            | inr c ↦ c
          ]
    ]

-- Deleting a page deletes rows that were not seen.
pub delete_rows-keep :
    (g : ℕ) (after x k : Text) (t : List Text) (rs : List Row)
    → AreSorted rs
    → missing g after rs ≡ x ∷ t
    → keep g (find_row k (delete_rows (x ∷ take 127 t) rs)) ≡ keep g (find_row k rs)
delete_rows-keep g after x k t rs o m =
    let page = x ∷ take 127 t in
    let d = find_row-delete_rows k page rs in
    elim (Bool-cases (is_in k page)) [
      | inr e ↦ ground (arith, ap (keep g) d)
      | inl e ↦
          let inside = is_in-page k x t 127 e in
          let (r, f, s) = missing-find_row g after k rs o (ap (is_in k) m ∙ inside) in
          ground (arith, f, s)
    ]
