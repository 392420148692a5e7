-- ===== src/Monitor/Passes.antt =====
-- A pass that returns leaves the inventory of the source in the index.
use h2hdb_ingest.Prelude.{
  ℕ, suc, ◌≡◌, ◌≢◌, ◌+◌, List, [], ◌∷◌, arith, refl, Result, ok, err, inl, inr, sym, ap, ◌∙◌,
  length, subst, All,
}
use h2hdb_ingest.Prelude.Texts.{Text}
use h2hdb_ingest.Library.Inversion.{Result-cases}
use h2hdb_ingest.Monitor.{
  Error, unfinished, Marker, Row, Index, find_row, Part, observe, sweep, sweep_after, closed,
  reconcile,
}
use h2hdb_ingest.Monitor.Order.{AreOrdered}
use h2hdb_ingest.Monitor.Rows.{AreSorted}
use h2hdb_ingest.Monitor.Sweep.{sweep-silent, sweep-ends, and_changes-fst}
use h2hdb_ingest.Monitor.Inventory.{
  inventory, fingerprint_of, indexed, observe-IsObserved, observe-silent, observe-ends,
}
use h2hdb_ingest.Monitor.Done.{reconcile-IsDone, IsIndex, IsDone-indexed, IsDone-IsIndex}

-- a probe of the source, and the index after some probes
pub record Probe : Type 0 where
  pub checkpoint : ℕ → Result Error (Unit {0})
  pub items : List (Result Error Marker)

unfoldable pub index_after : List Probe → Index → Index
index_after [] index = index
index_after (p ∷ ps) index = index_after ps (reconcile p.checkpoint p.items index).index

-- `CREATE TABLE marker`
abbrev pub empty_index : Index
empty_index = record { rows = []; generation = 0 }

closed-raised :
    (index : Index) (p : Part) (x : Error)
    → (closed index p).outcome ≡ err x
    → (p.0 ≡ err x) × ((closed index p).index ≡ record index { generation = index.generation + 1 })
closed-raised index (ok rows, n) x e = absurd (ground arith)
closed-raised index (err y, n) x e = (ground arith, refl)

reconcile-raised :
    (checkpoint : ℕ → Result Error (Unit {0})) (items : List (Result Error Marker)) (index : Index)
    (x : Error)
    → (reconcile checkpoint items index).outcome ≡ err x
    → (reconcile checkpoint items index).index ≡ record index { generation = index.generation + 1 }
unfolding reconcile
reconcile-raised checkpoint items index x e =
    let g = index.generation + 1 in
    let first = observe checkpoint g 0 items index.rows in
    (closed-raised index (sweep_after checkpoint g (length items) first) x e).1

-- An index after any passes: a pass that raises only counts its generation.
aged_index :
    (checkpoint : ℕ → Result Error (Unit {0})) (items : List (Result Error Marker)) (index : Index)
    → IsIndex index
    → IsIndex (reconcile checkpoint items index).index
aged_index checkpoint items index i =
    elim (Result-cases (reconcile checkpoint items index).outcome) [
      | inl (u, e) ↦
          let d = reconcile-IsDone checkpoint items index e in
          subst IsIndex (sym d.leaves)
            (IsDone-IsIndex checkpoint items index (reconcile checkpoint items index) d i)
      | inr (x, e) ↦
          let same = reconcile-raised checkpoint items index x e in
          subst IsIndex (sym same) (record {
            sorted = i.sorted;
            named = i.named;
            aged = λ k r f. let l = i.aged k r f in omega (arith, l);
          })
    ]

index_after-IsIndex :
    (ps : List Probe) (index : Index) → IsIndex index → IsIndex (index_after ps index)
unfolding index_after
index_after-IsIndex [] index i = i
index_after-IsIndex (p ∷ ps) index i =
    index_after-IsIndex ps (reconcile p.checkpoint p.items index).index
      (aged_index p.checkpoint p.items index i)

monitored : (ps : List Probe) → IsIndex (index_after ps empty_index)
unfolding find_row AreOrdered
monitored ps = index_after-IsIndex ps empty_index (record {
  sorted = tt;
  named = λ k r e. absurd (ground arith);
  aged = λ k r e. absurd (ground arith);
})

-- However earlier probes ended, when a pass returns, the index holds for every locator exactly the
-- fingerprint that the probe lists for it, and none if it lists none.
pub reconcile-inventory :
    (ps : List Probe) (checkpoint : ℕ → Result Error (Unit {0}))
    (items : List (Result Error Marker)) (k : Text)
    → (reconcile checkpoint items (index_after ps empty_index)).outcome ≡ ok tt
    → indexed (reconcile checkpoint items (index_after ps empty_index)).index k ≡ inventory items k
reconcile-inventory ps checkpoint items k e =
    let index = index_after ps empty_index in
    let pass = reconcile checkpoint items index in
    let d = reconcile-IsDone checkpoint items index e in
    subst (λ x. indexed x k ≡ inventory items k) (sym d.leaves)
      (IsDone-indexed checkpoint items index pass d (monitored ps) k)

-- No change is lost: if a pass returns and has not called `changed`, then every locator has the
-- fingerprint in the source that the index held before.
pub reconcile-silent :
    (ps : List Probe) (checkpoint : ℕ → Result Error (Unit {0}))
    (items : List (Result Error Marker)) (k : Text)
    → (reconcile checkpoint items (index_after ps empty_index)).outcome ≡ ok tt
    → (reconcile checkpoint items (index_after ps empty_index)).changes ≡ 0
    → inventory items k ≡ indexed (index_after ps empty_index) k
reconcile-silent ps checkpoint items k e n =
    let index = index_after ps empty_index in
    let pass = reconcile checkpoint items index in
    let d = reconcile-IsDone checkpoint items index e in
    let next = index.generation + 1 in
    let a : d.seen_changes ≡ 0 = omega (arith, d.counts, n) in
    let b : d.swept_changes ≡ 0 = omega (arith, d.counts, n) in
    let seen_part = observe checkpoint next 0 items index.rows in
    let swept_part =
      sweep checkpoint next (suc (length d.seen_rows)) (length items) [] d.seen_rows in
    let swept =
      sweep-silent checkpoint next (suc (length d.seen_rows)) (length items) d.seen_rows
        d.swept_rows (subst (λ m. swept_part ≡ (ok d.swept_rows, m)) b d.swept) in
    let seen =
      observe-silent checkpoint next 0 items index.rows d.seen_rows
        (subst (λ m. seen_part ≡ (ok d.seen_rows, m)) a d.seen) k in
    sym (IsDone-indexed checkpoint items index pass d (monitored ps) k)
    ∙ ap (λ rs. fingerprint_of (find_row k rs)) swept
    ∙ seen

sweep_after-ends :
    (checkpoint : ℕ → Result Error (Unit {0})) (g i : ℕ) (p : Part)
    → p.0 ≢ err unfinished
    → ((j : ℕ) → checkpoint j ≢ err unfinished)
    → ((rows : List Row) (n : ℕ) → p ≡ (ok rows, n) → AreSorted rows)
    → (sweep_after checkpoint g i p).0 ≢ err unfinished
sweep_after-ends checkpoint g i (err x, n) h c s e = h e
sweep_after-ends checkpoint g i (ok rows, n) h c s e =
    let rest = sweep checkpoint g (suc (length rows)) i [] rows in
    sweep-ends checkpoint g (suc (length rows)) i [] rows c (s rows n refl) (omega arith)
      (sym (and_changes-fst n rest) ∙ e)

-- If the probe and the checkpoints end, so does the pass: the loop that deletes never runs out of
-- the fuel that the rows give it.
pub reconcile-ends :
    (ps : List Probe) (checkpoint : ℕ → Result Error (Unit {0}))
    (items : List (Result Error Marker))
    → ((j : ℕ) → checkpoint j ≢ err unfinished)
    → All (λ x. x ≢ err unfinished) items
    → (reconcile checkpoint items (index_after ps empty_index)).outcome ≢ err unfinished
unfolding reconcile
reconcile-ends ps checkpoint items c l e =
    let index = index_after ps empty_index in
    let g = index.generation + 1 in
    let first = observe checkpoint g 0 items index.rows in
    let i = monitored ps in
    sweep_after-ends checkpoint g (length items) first
      (observe-ends checkpoint g 0 items index.rows c l) c
      (λ rows n f. (observe-IsObserved checkpoint g 0 n items index.rows rows i.sorted f).sorted)
      (closed-raised index (sweep_after checkpoint g (length items) first) unfinished e).0
