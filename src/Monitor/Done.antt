-- ===== src/Monitor/Done.antt =====
-- How a pass that returns has gone, and the index that it leaves.
use h2hdb_ingest.Prelude.{
  ℕ, suc, ◌≡◌, ◌≤◌, ◌<◌, ◌+◌, true, Option, none, some, List, [], ◌∷◌, arith, refl, Result, ok, err,
  Bool-cases, inl, inr, if◌then◌else◌, is_some, sym, ap, ◌∙◌, length, subst,
}
use h2hdb_ingest.Prelude.Texts.{Text, same_text, same_text-eq}
use h2hdb_ingest.Monitor.{
  Error, Marker, key_of, Row, Index, find_row, row_of, Part, and_changes, observe, sweep,
  sweep_after, closed, Pass, reconcile,
}
use h2hdb_ingest.Monitor.Rows.{AreSorted}
use h2hdb_ingest.Monitor.Sweep.{IsSwept, and_changes-ok, sweep-IsSwept}
use h2hdb_ingest.Monitor.Missing.{keep, AreLeft}
use h2hdb_ingest.Monitor.{text_before}
use h2hdb_ingest.Monitor.Inventory.{
  inventory, fingerprint_of, observed, observed-inventory, observe-IsObserved,
}

-- how a pass that returns has gone
pub record IsDone (checkpoint : ℕ → Result Error (Unit {0})) (items : List (Result Error Marker))
    (index : Index) (pass : Pass) : Type 0 where
  pub seen_rows : List Row
  pub seen_changes : ℕ
  pub swept_rows : List Row
  pub swept_changes : ℕ
  pub seen :
      observe checkpoint (index.generation + 1) 0 items index.rows ≡ (ok seen_rows, seen_changes)
  pub swept :
      sweep checkpoint (index.generation + 1) (suc (length seen_rows)) (length items) [] seen_rows
      ≡ (ok swept_rows, swept_changes)
  pub leaves : pass.index ≡ record { rows = swept_rows; generation = index.generation + 1 }
  pub counts : pass.changes ≡ seen_changes + swept_changes

closed-ok :
    (index : Index) (p : Part)
    → (closed index p).outcome ≡ ok tt
    → (rows : List Row) × (n : ℕ) × (p ≡ (ok rows, n))
closed-ok index (ok rows, n) e = (rows, n, refl)
closed-ok index (err x, n) e = absurd (ground arith)

sweep_after-ok :
    (checkpoint : ℕ → Result Error (Unit {0})) (g i n : ℕ) (p : Part) (rows : List Row)
    → sweep_after checkpoint g i p ≡ (ok rows, n)
    → (rows' : List Row) × (m : ℕ) × (p ≡ (ok rows', m))
      × (and_changes m (sweep checkpoint g (suc (length rows')) i [] rows') ≡ (ok rows, n))
sweep_after-ok checkpoint g i n (ok rows', m) rows e = (rows', m, refl, e)
sweep_after-ok checkpoint g i n (err x, m) rows e = absurd (ground arith)

pub reconcile-IsDone :
    (checkpoint : ℕ → Result Error (Unit {0})) (items : List (Result Error Marker)) (index : Index)
    → (reconcile checkpoint items index).outcome ≡ ok tt
    → IsDone checkpoint items index (reconcile checkpoint items index)
unfolding reconcile
reconcile-IsDone checkpoint items index e =
    let g = index.generation + 1 in
    let first = observe checkpoint g 0 items index.rows in
    let (rows, n, p) = closed-ok index (sweep_after checkpoint g (length items) first) e in
    let (rows', m, q, r) = sweep_after-ok checkpoint g (length items) n first rows p in
    let rest = sweep checkpoint g (suc (length rows')) (length items) [] rows' in
    let (k, s, t) = and_changes-ok m n rows rest r in
    record {
      seen_rows = rows';
      seen_changes = m;
      swept_rows = rows;
      swept_changes = k;
      seen = q;
      swept = s;
      leaves = ap (λ a. (closed index a).index) p;
      counts = ap (λ a. (closed index a).changes) p ∙ t;
    }

pub record IsIndex (index : Index) : Type 0 where
  pub sorted : AreSorted index.rows
  pub named : (k : Text) (r : Row) → find_row k index.rows ≡ some r → text_before [] k ≡ true
  pub aged : (k : Text) (r : Row) → find_row k index.rows ≡ some r → r.seen ≤ index.generation

keep-seen : (g : ℕ) (o : Option Row) (r : Row) → keep g o ≡ some r → r.seen ≤ g
keep-seen g none r h = absurd (ground arith)
keep-seen g (some x) r h = ground arith

keep-some : (g : ℕ) (o : Option Row) (r : Row) → keep g o ≡ some r → o ≡ some r
keep-some g none r h = absurd (ground arith)
keep-some g (some x) r h = ground arith

listed :
    (x : Option Text) (o : Option Row) → o ≡ none → (if is_some x then x else fingerprint_of o) ≡ x
listed none o h = ap fingerprint_of h
listed (some a) o h = refl

keep-none : (g : ℕ) (o : Option Row) → ((r : Row) → o ≡ some r → r.seen < g) → keep g o ≡ none
keep-none g none h = refl
keep-none g (some x) h = let l : x.seen < g = h x refl in ground arith

-- Every row has a locator that is not empty, the ones of the probe too.
observed-named :
    (g : ℕ) (items : List (Result Error Marker)) (k : Text) (o : Option Row) (r : Row)
    → ((x : Row) → o ≡ some x → text_before [] k ≡ true)
    → observed g items k o ≡ some r
    → text_before [] k ≡ true
unfolding observed text_before
observed-named g [] k o r h e = h r e
observed-named g (err x ∷ items) k o r h e = observed-named g items k o r h e
observed-named g (ok m ∷ items) k o r h e = elim (Bool-cases (same_text (key_of m) k)) [
  | inl s ↦ subst (λ l. text_before [] l ≡ true) (same_text-eq (key_of m) k s) refl
  | inr s ↦
      observed-named g items k o r h
        (ap (λ b. observed g items k (if b then some (row_of g m) else o)) (sym s) ∙ e)
]

module _ (checkpoint : ℕ → Result Error (Unit {0})) (items : List (Result Error Marker))
    (index : Index) where
  abbrev next : ℕ
  next = index.generation + 1

  seen_rows-AreLeft :
      (pass : Pass) (d : IsDone checkpoint items index pass)
      → IsIndex index
      → AreLeft next [] d.seen_rows
  seen_rows-AreLeft pass d i k r f s =
      let h =
        observe-IsObserved checkpoint next 0 d.seen_changes items index.rows d.seen_rows i.sorted
          d.seen in
      observed-named next items k (find_row k index.rows) r (i.named k) (sym (h.listed k) ∙ f)

  IsDone-IsSwept :
      (pass : Pass) (d : IsDone checkpoint items index pass)
      → IsIndex index
      → IsSwept next d.seen_rows d.swept_rows
  IsDone-IsSwept pass d i =
      let h =
        observe-IsObserved checkpoint next 0 d.seen_changes items index.rows d.seen_rows i.sorted
          d.seen in
      sweep-IsSwept checkpoint next (suc (length d.seen_rows)) (length items) d.swept_changes []
        d.seen_rows d.swept_rows h.sorted (seen_rows-AreLeft pass d i) d.swept

  -- The loop leaves what was observed.
  IsDone-kept :
      (pass : Pass) (d : IsDone checkpoint items index pass)
      → IsIndex index
      → (k : Text)
      → find_row k d.swept_rows ≡ keep next (observed next items k (find_row k index.rows))
  IsDone-kept pass d i k =
      let h =
        observe-IsObserved checkpoint next 0 d.seen_changes items index.rows d.seen_rows i.sorted
          d.seen in
      (IsDone-IsSwept pass d i).kept k ∙ ap (keep next) (h.listed k)

  -- No row of an earlier generation is kept.
  old_rows : IsIndex index → (k : Text) → keep next (find_row k index.rows) ≡ none
  old_rows i k =
      keep-none next (find_row k index.rows) (λ r f. let l = i.aged k r f in omega (arith, l))

  pub IsDone-indexed :
      (pass : Pass) (d : IsDone checkpoint items index pass)
      → IsIndex index
      → (k : Text) → fingerprint_of (find_row k d.swept_rows) ≡ inventory items k
  IsDone-indexed pass d i k =
      ap fingerprint_of (IsDone-kept pass d i k)
      ∙ observed-inventory next items k (find_row k index.rows)
      ∙ listed (inventory items k) (keep next (find_row k index.rows)) (old_rows i k)

  pub IsDone-IsIndex :
      (pass : Pass) (d : IsDone checkpoint items index pass)
      → IsIndex index
      → IsIndex (record { rows = d.swept_rows; generation = next })
  IsDone-IsIndex pass d i = record {
    sorted = (IsDone-IsSwept pass d i).sorted;
    named = λ k r f.
        let o = observed next items k (find_row k index.rows) in
        observed-named next items k (find_row k index.rows) r (i.named k)
          (keep-some next o r (sym (IsDone-kept pass d i k) ∙ f));
    aged = λ k r f.
        keep-seen next (observed next items k (find_row k index.rows)) r
          (sym (IsDone-kept pass d i k) ∙ f);
  }
