-- ===== src/Monitor/Sweep.antt =====
-- The loop that deletes the rows that a pass has not seen.
use h2hdb_ingest.Prelude.{
  ℕ, zero, suc, ◌≡◌, ◌≢◌, ◌<◌, ◌+◌, List, [], ◌∷◌, arith, refl, Result, ok, err, Bool-cases,
  Option-cases, inl, inr, ◌==◌, length, take, ap, ◌∙◌,
}
use h2hdb_ingest.Prelude.Texts.{Text, same_text_refl}
use h2hdb_ingest.Library.Inversion.{Result-cases}
use h2hdb_ingest.Monitor.{
  Error, unfinished, Row, find_row, missing, delete_rows, last_of, sweep, Part, and_changes,
  is_first,
}
use h2hdb_ingest.Monitor.Order.{is_in}
use h2hdb_ingest.Monitor.Rows.{AreSorted, delete_rows-AreSorted, delete_rows-shorter}
use h2hdb_ingest.Monitor.Missing.{
  missing-find_row, missing-is_in, keep, List-cases, AreLeft, delete_rows-AreLeft, delete_rows-keep,
}

-- what the loop leaves, if it returns
pub record IsSwept (g : ℕ) (rs rs' : List Row) : Type 0 where
  pub kept : (k : Text) → find_row k rs' ≡ keep g (find_row k rs)
  pub sorted : AreSorted rs'

pub and_changes-ok :
    (n m : ℕ) (rs : List Row) (p : Part)
    → and_changes n p ≡ (ok rs, m)
    → (k : ℕ) × (p ≡ (ok rs, k)) × (m ≡ n + k)
and_changes-ok n m rs (o, k) e = (k, ground arith, ground arith)

pub and_changes-fst : (n : ℕ) (p : Part) → (and_changes n p).0 ≡ p.0
and_changes-fst n (o, k) = refl

module _ (checkpoint : ℕ → Result Error (Unit {0})) (g : ℕ) where
  nothing_left :
      (after : Text) (rs : List Row)
      → AreLeft g after rs
      → missing g after rs ≡ []
      → (k : Text) → find_row k rs ≡ keep g (find_row k rs)
  unfolding is_in
  nothing_left after rs l m k = elim (Option-cases (find_row k rs)) [
    | inl f ↦ rw f refl
    | inr (r, f) ↦ elim (Bool-cases (r.seen == g)) [
      | inl s ↦ ground (arith, f, s)
      | inr s ↦
          let inside = missing-is_in g after k rs r f s (l k r f s) in
          absurd (ground (arith, ap (is_in k) m))
    ]
  ]

  pub sweep-IsSwept :
      (fuel i n : ℕ) (after : Text) (rs rs' : List Row)
      → AreSorted rs
      → AreLeft g after rs
      → sweep checkpoint g fuel i after rs ≡ (ok rs', n)
      → IsSwept g rs rs'
  unfolding sweep
  sweep-IsSwept zero i n after rs rs' o l e = absurd (ground arith)
  sweep-IsSwept (suc fuel) i n after rs rs' o l e = elim (Result-cases (checkpoint i)) [
    | inr (x, c) ↦ absurd (ground arith)
    | inl (u, c) ↦ elim (List-cases (missing g after rs)) [
      | inl m ↦
          let same : rs' ≡ rs = ground arith in
          rw same (record { kept = nothing_left after rs l m; sorted = o })
      | inr (x, t, m) ↦
          let page = x ∷ take 127 t in
          let rest =
            sweep checkpoint g fuel (suc i) (last_of x (take 127 t)) (delete_rows page rs) in
          let again = and_changes-ok (is_first after) n rs' rest (ground arith) in
          let h =
            sweep-IsSwept fuel (suc i) again.0 (last_of x (take 127 t)) (delete_rows page rs) rs'
              (delete_rows-AreSorted page rs o) (delete_rows-AreLeft g after x t rs o l m)
              again.1 in
          record { kept = λ k. h.kept k ∙ delete_rows-keep g after x k t rs o m; sorted = h.sorted }
    ]
  ]

  -- A first page that deletes something is reported.
  pub sweep-silent :
      (fuel i : ℕ) (rs rs' : List Row) → sweep checkpoint g fuel i [] rs ≡ (ok rs', 0) → rs' ≡ rs
  unfolding sweep
  sweep-silent zero i rs rs' e = absurd (ground arith)
  sweep-silent (suc fuel) i rs rs' e = elim (Result-cases (checkpoint i)) [
    | inr (x, c) ↦ absurd (ground arith)
    | inl (u, c) ↦ elim (List-cases (missing g [] rs)) [
      | inl m ↦ ground arith
      | inr (x, t, m) ↦
          let page = x ∷ take 127 t in
          let rest =
            sweep checkpoint g fuel (suc i) (last_of x (take 127 t)) (delete_rows page rs) in
          let (k, _, s) = and_changes-ok 1 0 rs' rest (ground arith) in absurd (omega (arith, s))
    ]
  ]

  pub sweep-ends :
      (fuel i : ℕ) (after : Text) (rs : List Row)
      → ((j : ℕ) → checkpoint j ≢ err unfinished)
      → AreSorted rs
      → length rs < fuel
      → (sweep checkpoint g fuel i after rs).0 ≢ err unfinished
  unfolding sweep is_in
  sweep-ends zero i after rs c o l e = absurd (omega arith)
  sweep-ends (suc fuel) i after rs c o l e = elim (Result-cases (checkpoint i)) [
    | inr (x, d) ↦ c i (ground arith)
    | inl (u, d) ↦ elim (List-cases (missing g after rs)) [
      | inl m ↦ absurd (ground arith)
      | inr (x, t, m) ↦
          let page = x ∷ take 127 t in
          let rest =
            sweep checkpoint g fuel (suc i) (last_of x (take 127 t)) (delete_rows page rs) in
          let (r, f, _) = missing-find_row g after x rs o (ground (arith, same_text_refl x)) in
          let shorter = delete_rows-shorter x (take 127 t) rs r f in
          sweep-ends fuel (suc i) (last_of x (take 127 t)) (delete_rows page rs) c
            (delete_rows-AreSorted page rs o) (omega (arith, shorter))
            (ground (arith, and_changes-fst (is_first after) rest))
    ]
  ]
