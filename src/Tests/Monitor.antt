-- ===== src/Tests/Monitor.antt =====
-- The theorems about the source monitor at concrete probes.
use h2hdb_ingest.Prelude.{
  ℕ, ◌≡◌, ◌≢◌, ◌+◌, true, false, none, some, List, [], ◌∷◌, Result, ok, err, refl, arith, is_some,
}
use Prim.Native.String.{String}
use h2hdb_ingest.Prelude.Texts.{Text, text, same_text}
use h2hdb_ingest.Schedule.{Schedule}
use h2hdb_ingest.Monitor.{
  Error, unfinished, source_changed, Marker, key_of, Index, text_before, find_row, put_row, missing,
  delete_row, delete_rows, observe, sweep, reconcile, Monitor, turn,
}
use h2hdb_ingest.Monitor.Inventory.{inventory, indexed}
use h2hdb_ingest.Monitor.Passes.{
  Probe, index_after, empty_index, reconcile-inventory, reconcile-silent, reconcile-ends,
}
use h2hdb_ingest.Monitor.Noticed.{turn-noticed}

abbrev marker : String → String → Marker
marker l f = record { locator = text l; fingerprint = text f }

abbrev always : ℕ → Result Error (Unit {0})
always i = ok tt

-- a probe that lists two galleries, and one that breaks off
abbrev earlier : List Probe
earlier =
    record { checkpoint = always; items = ok (marker "b" "1") ∷ ok (marker "a" "1") ∷ [] }
    ∷ record { checkpoint = always; items = ok (marker "a" "2") ∷ err source_changed ∷ [] }
    ∷ []

-- one gallery is gone, and one is there as before
abbrev items : List (Result Error Marker)
items = ok (marker "b" "1") ∷ []

abbrev gone : Text
gone = key_of (marker "a" "1")

abbrev index : Index
index = index_after earlier empty_index

-- The pass returns, and reports the gallery that is gone; the next one reports nothing.
computed :
    ((reconcile always items index).outcome ≡ ok tt)
    × ((reconcile always items index).changes ≡ 1)
    × ((reconcile always (ok (marker "a" "1") ∷ items) index).outcome ≡ ok tt)
    × ((reconcile always (ok (marker "a" "1") ∷ items) index).changes ≡ 0)
    × (inventory items gone ≡ none)
    × (indexed index gone ≡ some (text "1"))
unfolding index_after reconcile observe sweep find_row put_row missing delete_row delete_rows
    text_before same_text inventory
computed = (refl, refl, refl, refl, refl, refl)

reconcile-inventory_example :
    indexed (reconcile always items (index_after earlier empty_index)).index gone
    ≡ inventory items gone
reconcile-inventory_example = reconcile-inventory earlier always items gone computed.0

reconcile-silent_example :
    inventory (ok (marker "a" "1") ∷ items) gone ≡ indexed (index_after earlier empty_index) gone
reconcile-silent_example =
    reconcile-silent earlier always (ok (marker "a" "1") ∷ items) gone computed.2 computed.3

always_ok : (j : ℕ) → always j ≢ err unfinished
always_ok j e = absurd (ground arith)

first_ok : ok (marker "b" "1") ≢ err unfinished
first_ok e = absurd (ground arith)

reconcile-ends_example :
    (reconcile always items (index_after earlier empty_index)).outcome ≢ err unfinished
reconcile-ends_example = reconcile-ends earlier always items always_ok (first_ok, tt)

-- a schedule with no pending change
abbrev schedule : Schedule
schedule = record {
  quiet_seconds = 5;
  max_wait_seconds = 60;
  generation = 3;
  sequence = 1;
  active = none;
  last_change_at = none;
  hard_deadline = none;
}

abbrev monitor : Monitor
monitor = record {
  index = index_after earlier empty_index;
  schedule = schedule;
  is_capacity_exhausted = false;
  is_running = true;
  failure = none;
}

other_fingerprint : inventory items gone ≢ indexed index gone
other_fingerprint e = absurd (ground (arith, computed.4, computed.5, e))

turn-noticed_example :
    is_some (turn (λ i. 100 + i) always items monitor).schedule.last_change_at ≡ true
turn-noticed_example =
    turn-noticed earlier (λ i. 100 + i) always items monitor gone refl computed.0 other_fingerprint
