-- ===== src/Monitor/Noticed.antt =====
-- The monitor and the schedule together.
use h2hdb_ingest.Prelude.{
  ℕ, zero, suc, ◌≡◌, ◌≢◌, true, List, Result, ok, err, is_some, arith, refl, Option-cases, inl, inr,
  sym, ap, subst, ◌∙◌,
}
use h2hdb_ingest.Prelude.Texts.{Text}
use h2hdb_ingest.Schedule.{Schedule, note_change}
use h2hdb_ingest.Monitor.{
  Error, Marker, Index, reconcile, Monitor, changed, changed_times, settle, turn,
}
use h2hdb_ingest.Monitor.Inventory.{inventory, indexed}
use h2hdb_ingest.Monitor.Passes.{Probe, index_after, empty_index, reconcile-silent}

changed-last_change_at : (now : ℕ) (s : Schedule) → is_some (changed now s).last_change_at ≡ true
unfolding note_change
changed-last_change_at now s = elim (Option-cases s.last_change_at) [
  | inl e ↦ ground (arith, e)
  | inr (t, e) ↦ ground (arith, e)
]

changed_times-last_change_at :
    (clock : ℕ → ℕ) (n : ℕ) (s : Schedule)
    → n ≢ 0
    → is_some (changed_times clock n s).last_change_at ≡ true
unfolding changed_times
changed_times-last_change_at clock zero s h = absurd (h refl)
changed_times-last_change_at clock (suc n) s h =
    changed-last_change_at (clock n) (changed_times clock n s)

settle-schedule :
    (now : ℕ) (m : Monitor) (o : Result Error (Unit {0}))
    → o ≡ ok tt
    → (settle now m o).schedule ≡ m.schedule
settle-schedule now m (ok u) e = refl
settle-schedule now m (err x) e = absurd (ground arith)

-- However the earlier probes ended, if a turn's probe returns and lists another fingerprint for some
-- locator than the index holds, or one that is missing there, or none for one that is there, then a
-- change is pending in the schedule after the turn.
pub turn-noticed :
    (ps : List Probe) (clock : ℕ → ℕ) (checkpoint : ℕ → Result Error (Unit {0}))
    (items : List (Result Error Marker)) (m : Monitor) (k : Text)
    → m.index ≡ index_after ps empty_index
    → (reconcile checkpoint items m.index).outcome ≡ ok tt
    → inventory items k ≢ indexed m.index k
    → is_some (turn clock checkpoint items m).schedule.last_change_at ≡ true
unfolding turn
turn-noticed ps clock checkpoint items m k i e h =
    let silent =
      subst
        (λ (x : Index).
          (reconcile checkpoint items x).outcome ≡ ok tt
          → (reconcile checkpoint items x).changes ≡ 0
          → inventory items k ≡ indexed x k)
        (sym i) (reconcile-silent ps checkpoint items k) in
    let n = (reconcile checkpoint items m.index).changes in
    ap (λ (s : Schedule). is_some s.last_change_at)
      (settle-schedule (clock n)
        (record m {
          index = (reconcile checkpoint items m.index).index;
          schedule = changed_times clock n m.schedule;
        })
        (reconcile checkpoint items m.index).outcome e)
    ∙ changed_times-last_change_at clock n m.schedule (λ z. h (silent e z))
