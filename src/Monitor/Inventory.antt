-- ===== src/Monitor/Inventory.antt =====
-- The loop over the markers of a probe, and the inventory that they list.
use h2hdb_ingest.Prelude.{
  ℕ, suc, ◌≡◌, ◌≢◌, ◌+◌, Option, none, some, List, [], ◌∷◌, arith, refl, Result, ok, err,
  Bool-cases, Option-cases, inl, inr, if◌then◌else◌, is_some, sym, ap, ◌∙◌, subst, All,
}
use h2hdb_ingest.Prelude.Texts.{Text, same_text, same_text-eq}
use h2hdb_ingest.Library.Inversion.{Result-cases}
use h2hdb_ingest.Monitor.{
  Error, unfinished, Marker, key_of, Row, Index, find_row, put_row, row_of, changes_of, observe,
}
use h2hdb_ingest.Monitor.Rows.{AreSorted, put_row-AreSorted, find_row-put_row}
use h2hdb_ingest.Monitor.Sweep.{and_changes-ok, and_changes-fst}
use h2hdb_ingest.Monitor.Missing.{keep}

-- the fingerprint of a locator in the source: the last one that the probe lists
unfoldable pub inventory : List (Result Error Marker) → Text → Option Text
inventory [] k = none
inventory (err e ∷ items) k = inventory items k
inventory (ok m ∷ items) k =
    let rest = inventory items k in
    if is_some rest then rest else if same_text (key_of m) k then some m.fingerprint else none

abbrev pub fingerprint_of : Option Row → Option Text
fingerprint_of none = none
fingerprint_of (some r) = some r.fingerprint

-- the fingerprint of a locator in the index
abbrev pub indexed : Index → Text → Option Text
indexed index k = fingerprint_of (find_row k index.rows)

-- the row of a locator after the items
unfoldable pub observed : ℕ → List (Result Error Marker) → Text → Option Row → Option Row
observed g [] k o = o
observed g (err e ∷ items) k o = observed g items k o
observed g (ok m ∷ items) k o =
    observed g items k (if same_text (key_of m) k then some (row_of g m) else o)

pub observed-inventory :
    (g : ℕ) (items : List (Result Error Marker)) (k : Text) (o : Option Row)
    → fingerprint_of (keep g (observed g items k o))
      ≡ (if is_some (inventory items k) then inventory items k else fingerprint_of (keep g o))
unfolding observed inventory
observed-inventory g [] k o = refl
observed-inventory g (err e ∷ items) k o = observed-inventory g items k o
observed-inventory g (ok m ∷ items) k o =
    let o' = if same_text (key_of m) k then some (row_of g m) else o in
    ground (arith, observed-inventory g items k o')

-- what the `for` loop leaves, if it returns
pub record IsObserved (g : ℕ) (items : List (Result Error Marker)) (rs rs' : List Row)
    : Type 0 where
  pub listed : (k : Text) → find_row k rs' ≡ observed g items k (find_row k rs)
  pub sorted : AreSorted rs'

put_row-silent :
    (g : ℕ) (m : Marker) (rs : List Row)
    → changes_of m (find_row (key_of m) rs) ≡ 0
    → (k : Text)
    → fingerprint_of (find_row k (put_row (row_of g m) rs)) ≡ fingerprint_of (find_row k rs)
put_row-silent g m rs h k = elim (Option-cases (find_row (key_of m) rs)) [
  | inl f ↦ absurd (ground arith)
  | inr (r, f) ↦
      let same = same_text-eq r.fingerprint m.fingerprint (ground arith) in
      let p = ap fingerprint_of (find_row-put_row k (row_of g m) rs) in
      elim (Bool-cases (same_text (key_of m) k)) [
        | inr e ↦ p ∙ ap (λ b. fingerprint_of (if b then some (row_of g m) else find_row k rs)) e
        | inl e ↦
            let here : find_row k rs ≡ some r =
              subst (λ l. find_row l rs ≡ some r) (same_text-eq (key_of m) k e) f in
            p
            ∙ ap (λ b. fingerprint_of (if b then some (row_of g m) else find_row k rs)) e
            ∙ ap some (sym same)
            ∙ sym (ap fingerprint_of here)
      ]
]

module _ (checkpoint : ℕ → Result Error (Unit {0})) (g : ℕ) where
  observe-step :
      (i n : ℕ) (m : Marker) (items : List (Result Error Marker)) (rs rs' : List Row)
      → observe checkpoint g i (ok m ∷ items) rs ≡ (ok rs', n)
      → (k : ℕ) × (observe checkpoint g (suc i) items (put_row (row_of g m) rs) ≡ (ok rs', k))
        × (n ≡ changes_of m (find_row (key_of m) rs) + k)
  unfolding observe
  observe-step i n m items rs rs' e = elim (Result-cases (checkpoint i)) [
    | inr (x, c) ↦ absurd (ground arith)
    | inl (u, c) ↦
        let rest = observe checkpoint g (suc i) items (put_row (row_of g m) rs) in
        and_changes-ok (changes_of m (find_row (key_of m) rs)) n rs' rest (ground arith)
  ]

  pub observe-IsObserved :
      (i n : ℕ) (items : List (Result Error Marker)) (rs rs' : List Row)
      → AreSorted rs
      → observe checkpoint g i items rs ≡ (ok rs', n)
      → IsObserved g items rs rs'
  unfolding observed
  observe-IsObserved i n [] rs rs' o e =
      let same : rs' ≡ rs = unfold observe in ground arith in
      rw same (record { listed = λ k. refl; sorted = o })
  observe-IsObserved i n (err x ∷ items) rs rs' o e = absurd (unfold observe in ground arith)
  observe-IsObserved i n (ok m ∷ items) rs rs' o e =
      let (q, s, _) = observe-step i n m items rs rs' e in
      let h =
        observe-IsObserved (suc i) q items (put_row (row_of g m) rs) rs'
          (put_row-AreSorted (row_of g m) rs o) s in
      record {
        listed = λ k. h.listed k ∙ ap (observed g items k) (find_row-put_row k (row_of g m) rs);
        sorted = h.sorted;
      }

  -- A loop that reports no change finds the fingerprints that were there.
  pub observe-silent :
      (i : ℕ) (items : List (Result Error Marker)) (rs rs' : List Row)
      → observe checkpoint g i items rs ≡ (ok rs', 0)
      → (k : Text) → fingerprint_of (find_row k rs') ≡ fingerprint_of (find_row k rs)
  observe-silent i [] rs rs' e k =
      let same : rs' ≡ rs = unfold observe in ground arith in rw same refl
  observe-silent i (err x ∷ items) rs rs' e k = absurd (unfold observe in ground arith)
  observe-silent i (ok m ∷ items) rs rs' e k =
      let (q, s, n) = observe-step i 0 m items rs rs' e in
      let zero_changes : q ≡ 0 = omega (arith, n) in
      let before =
        observe-silent (suc i) items (put_row (row_of g m) rs) rs' (rw⁻¹ zero_changes s) k in
      before ∙ put_row-silent g m rs (omega (arith, n)) k

  pub observe-ends :
      (i : ℕ) (items : List (Result Error Marker)) (rs : List Row)
      → ((j : ℕ) → checkpoint j ≢ err unfinished)
      → All (λ x. x ≢ err unfinished) items
      → (observe checkpoint g i items rs).0 ≢ err unfinished
  unfolding observe
  observe-ends i [] rs c l e = absurd (ground arith)
  observe-ends i (err x ∷ items) rs c l e = l.0 (ground arith)
  observe-ends i (ok m ∷ items) rs c l e = elim (Result-cases (checkpoint i)) [
    | inr (x, d) ↦ c i (ground arith)
    | inl (u, d) ↦
        let rest = observe checkpoint g (suc i) items (put_row (row_of g m) rs) in
        let n = changes_of m (find_row (key_of m) rs) in
        observe-ends (suc i) items (put_row (row_of g m) rs) c l.1
          (ground (arith, and_changes-fst n rest))
  ]
