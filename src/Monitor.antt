-- ===== src/Monitor.antt =====
-- source_monitor.py: the index of completion markers and the loop that compares it with the source.
pub mod Order
pub mod Rows
pub mod Missing
pub mod Sweep
pub mod Inventory
pub mod Done
pub mod Passes
pub mod Noticed
use h2hdb_ingest.Prelude.{
  ℕ, zero, suc, ◌+◌, Bool, true, false, not, ◌&&◌, ◌||◌, Option, none, some, List, [], ◌∷◌, Result,
  ok, err, ltb, ◌==◌, if◌then◌else◌, length, take,
}
use h2hdb_ingest.Prelude.Texts.{Text, same_text}
use h2hdb_ingest.Schedule.{Schedule, note_change, finite}

-- what a probe raises
pub data Error : Type 0 where
  probe_stopped source_changed capacity_exhausted other_error unfinished : Error

-- A marker's locator as JSON, without its opening bracket, and its fingerprint as JSON.
pub record Marker : Type 0 where
  pub locator : Text
  pub fingerprint : Text

pub record Row : Type 0 where
  pub locator : Text
  pub fingerprint : Text
  pub seen : ℕ

pub record Index : Type 0 where
  pub rows : List Row
  pub generation : ℕ

-- `json.dumps(locator)`
abbrev pub key_of : Marker → Text
key_of m = 91 ∷ m.locator

-- the binary order of TEXT
unfoldable pub text_before : Text → Text → Bool
text_before a [] = false
text_before [] (d ∷ b) = true
text_before (c ∷ a) (d ∷ b) = let rest = text_before a b in ltb c d || c == d && rest

-- SELECT fingerprint FROM marker WHERE locator = ?
unfoldable pub find_row : Text → List Row → Option Row
find_row k [] = none
find_row k (r ∷ rs) = let rest = find_row k rs in if same_text r.locator k then some r else rest

-- INSERT INTO marker ... ON CONFLICT(locator) DO UPDATE, in the order of the primary key
unfoldable pub put_row : Row → List Row → List Row
put_row r [] = r ∷ []
put_row r (x ∷ xs) =
    let rest = put_row r xs in
    if same_text x.locator r.locator
    then r ∷ xs
    else if text_before r.locator x.locator
    then r ∷ x ∷ xs
    else x ∷ rest

abbrev pub row_of : ℕ → Marker → Row
row_of generation m = record { locator = key_of m; fingerprint = m.fingerprint; seen = generation }

-- `old is None or old[0] != fingerprint`: the calls of `changed`
abbrev pub changes_of : Marker → Option Row → ℕ
changes_of m none = 1
changes_of m (some r) = if same_text r.fingerprint m.fingerprint then 0 else 1

-- how a part of the transaction ends, and how often it called `changed`
abbrev pub Part : Type 0
Part = Result Error (List Row) × ℕ

abbrev pub and_changes : ℕ → Part → Part
and_changes n (o, k) = (o, n + k)

-- SELECT locator FROM marker WHERE seen != ? AND locator > ? ORDER BY locator
unfoldable pub missing : ℕ → Text → List Row → List Text
missing generation after [] = []
missing generation after (r ∷ rs) =
    let rest = missing generation after rs in
    if not (r.seen == generation) && text_before after r.locator then r.locator ∷ rest else rest

-- DELETE FROM marker WHERE locator = ?
unfoldable pub delete_row : Text → List Row → List Row
delete_row k [] = []
delete_row k (r ∷ rs) =
    let rest = delete_row k rs in if same_text r.locator k then rest else r ∷ rest

unfoldable pub delete_rows : List Text → List Row → List Row
delete_rows [] rows = rows
delete_rows (k ∷ ks) rows = delete_rows ks (delete_row k rows)

abbrev pub last_of : Text → List Text → Text
last_of k [] = k
last_of k (l ∷ ls) = last_of l ls

abbrev pub is_first : Text → ℕ
is_first [] = 1
is_first (c ∷ k) = 0

-- The markers come from an iterator that may raise, and so may the checkpoint, which is called for
-- the `i`-th time.
module _ (checkpoint : ℕ → Result Error (Unit {0})) (generation : ℕ) where
  -- the `for` loop
  unfoldable pub observe : ℕ → List (Result Error Marker) → List Row → Part
  observe i [] rows = (ok rows, 0)
  observe i (err e ∷ items) rows = (err e, 0)
  observe i (ok m ∷ items) rows =
      let rest = observe (suc i) items (put_row (row_of generation m) rows) in
      elim (checkpoint i) [
        | err e ↦ (err e, 0)
        | ok _ ↦ and_changes (changes_of m (find_row (key_of m) rows)) rest
      ]

  -- The `while` loop. Each page deletes at least one row, so the fuel is one more than the rows.
  unfoldable pub sweep : ℕ → ℕ → Text → List Row → Part
  sweep zero i after rows = (err unfinished, 0)
  sweep (suc fuel) i after rows = elim (checkpoint i) [
    | err e ↦ (err e, 0)
    | ok _ ↦ elim (take 128 (missing generation after rows)) [
      | [] ↦ (ok rows, 0)
      | k ∷ ks ↦
          and_changes (is_first after)
            (sweep fuel (suc i) (last_of k ks) (delete_rows (k ∷ ks) rows))
    ]
  ]

  abbrev pub sweep_after : ℕ → Part → Part
  sweep_after i (err e, n) = (err e, n)
  sweep_after i (ok rows, n) = and_changes n (sweep (suc (length rows)) i [] rows)

-- what a call of `reconcile` leaves: it returns or raises, after some calls of `changed`
pub record Pass : Type 0 where
  pub outcome : Result Error (Unit {0})
  pub changes : ℕ
  pub index : Index

-- a transaction that raises is rolled back, but the generation has been counted
abbrev pub closed : Index → Part → Pass
closed index (ok rows, n) = record {
  outcome = ok tt;
  changes = n;
  index = record { rows = rows; generation = index.generation + 1 };
}
closed index (err e, n) = record {
  outcome = err e;
  changes = n;
  index = record index { generation = index.generation + 1 };
}

unfoldable pub reconcile : (ℕ → Result Error (Unit {0})) → List (Result Error Marker) → Index → Pass
reconcile checkpoint items index =
    let generation = index.generation + 1 in
    closed index (
      sweep_after checkpoint generation (length items)
        (observe checkpoint generation 0 items index.rows))

-- `SourceChangeMonitor`, between two turns of the loop of `_run_index`; the schedule is the resident
-- loop's own.
pub record Monitor : Type 0 where
  pub index : Index
  pub schedule : Schedule
  pub is_capacity_exhausted : Bool
  pub is_running : Bool
  pub failure : Option Error

-- `_changed`: a clock's reading is finite, so the note is taken
abbrev pub changed : ℕ → Schedule → Schedule
changed now s = elim (note_change s (finite now)) [ ok s' ↦ s' | err e ↦ s ]

-- calls of `changed`, by the clock of each
unfoldable pub changed_times : (ℕ → ℕ) → ℕ → Schedule → Schedule
changed_times clock zero s = s
changed_times clock (suc n) s = changed (clock n) (changed_times clock n s)

-- the handlers of a turn, and of the thread
abbrev pub settle : ℕ → Monitor → Result Error (Unit {0}) → Monitor
settle now m (ok _) = record m { is_capacity_exhausted = false }
settle now m (err capacity_exhausted) = record m { is_capacity_exhausted = true }
settle now m (err source_changed) = record m { schedule = changed now m.schedule }
settle now m (err probe_stopped) = record m { is_running = false }
settle now m (err other_error) = record m { is_running = false; failure = some other_error }
settle now m (err unfinished) = record m { is_running = false; failure = some unfinished }

-- one turn of the loop of `_run_index`, with no other call of the schedule between its notes
unfoldable pub turn :
    (ℕ → ℕ) → (ℕ → Result Error (Unit {0})) → List (Result Error Marker) → Monitor → Monitor
turn clock checkpoint items m =
    let pass = reconcile checkpoint items m.index in
    settle (clock pass.changes)
      (record m { index = pass.index; schedule = changed_times clock pass.changes m.schedule })
      pass.outcome
