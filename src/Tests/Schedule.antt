-- ===== src/Tests/Schedule.antt =====
-- The theorems about the schedule, applied to a quiet period of 2 and a maximum wait of 10.
use h2hdb_ingest.Prelude.{
  ℕ, ◌+◌, ◌≡◌, ◌≢◌, ◌≤◌, min, true, false, Option, none, some, [], ◌∷◌, ok, refl,
}
use h2hdb_ingest.Schedule.{
  finite, Ticket, Schedule, change, start, new, next_scan_at, start_scan, finish_scan, step, run,
}
use h2hdb_ingest.Schedule.Invariant.{IsCoherent, new-IsCoherent, run-IsCoherent, run-next_scan_at}
use h2hdb_ingest.Schedule.Debounce.{
  changes, latest, due_after, next_scan_at-changes, next_scan_at-finish_scan, changes_survive,
}
use h2hdb_ingest.Schedule.Tickets.{finish_scan-once}

abbrev started : Schedule
started = record {
  quiet_seconds = 2;
  max_wait_seconds = 10;
  generation = 1;
  sequence = 0;
  active = none;
  last_change_at = some 0;
  hard_deadline = some 0;
}

started-new : new (finite 2) (finite 10) (finite 0) ≡ ok started
unfolding new
started-new = refl

started-IsCoherent : IsCoherent started
started-IsCoherent = new-IsCoherent (finite 2) (finite 10) (finite 0) started started-new

abbrev first_ticket : Ticket
first_ticket = record { sequence = 1; generation = 1; started_at = 1 }

-- a scan is running
abbrev scanning : Schedule
scanning = record started {
  sequence = 1;
  active = some first_ticket;
  last_change_at = none;
  hard_deadline = none;
}

-- the scan has ended, and nothing is pending
abbrev clean : Schedule
clean = record scanning { active = none }

scan_started : start_scan started (finite 1) ≡ ok (scanning, first_ticket)
unfolding start_scan
scan_started = refl

scanning-IsCoherent : IsCoherent scanning
unfolding run step
scanning-IsCoherent = run-IsCoherent started (start (finite 1) ∷ []) started-IsCoherent

scan_finished : finish_scan scanning first_ticket (finite 3) true false false ≡ ok clean
unfolding finish_scan
scan_finished = refl

-- changes at 4, 5 and 9: the scan is due at 11, not later
next_scan_at-changes_example :
    next_scan_at (run clean (changes (4 ∷ 5 ∷ 9 ∷ [])))
    ≡ ok (some (min (latest 4 (5 ∷ 9 ∷ []) + 2) (4 + 10)))
next_scan_at-changes_example = next_scan_at-changes clean 4 (5 ∷ 9 ∷ []) refl refl

next_scan_at-finish_scan_example : next_scan_at clean ≡ ok (due_after scanning 3 true false false)
next_scan_at-finish_scan_example =
    next_scan_at-finish_scan scanning first_ticket 3 true false false clean scanning-IsCoherent
      scan_finished

-- a change at 2, while the scan runs, and its end at 3
abbrev dirty : Schedule
dirty = record clean { generation = 2; last_change_at = some 2; hard_deadline = some 13 }

dirty_finished :
    finish_scan (run scanning (changes (2 ∷ []))) first_ticket (finite 3) true false false
    ≡ ok dirty
unfolding finish_scan run step
dirty_finished = refl

changes_survive_example : (d : ℕ) × (next_scan_at dirty ≡ ok (some d)) × (d ≤ 3 + 10)
changes_survive_example =
    changes_survive started 1 3 2 [] true false false scanning dirty first_ticket started-IsCoherent
      scan_started dirty_finished

finish_scan-once_example :
    finish_scan (run clean (start (finite 4) ∷ [])) first_ticket (finite 5) true false false
    ≢ ok clean
finish_scan-once_example =
    finish_scan-once scanning first_ticket (finite 3) true false false clean (start (finite 4) ∷ [])
      5 true false false clean scanning-IsCoherent scan_finished

run-next_scan_at_example :
    (d : Option ℕ) × (next_scan_at (run started (change (finite 5) ∷ start (finite 7) ∷ [])) ≡ ok d)
run-next_scan_at_example =
    run-next_scan_at (finite 2) (finite 10) (finite 0) started
      (change (finite 5) ∷ start (finite 7) ∷ []) started-new
