-- ===== src/Tests/Session.antt =====
-- The theorems about the session controller at concrete inputs.
use h2hdb_ingest.Prelude.{
  ℕ, ◌≢◌, ◌+◌, ◌*◌, true, false, some, List, [], ◌∷◌, ok, err, Result, arith, refl, zero, suc,
}
use h2hdb_ingest.Session.{
  Receipt, Raised, Error, unfinished, Controller, new, Renewing, renew, beat, Step, call_step,
  complete_step, beat_step, admit_step, operate_step, run, deadline,
}
use h2hdb_ingest.Session.Fence.{IsFenced, run-IsFenced}
use h2hdb_ingest.Session.Receipts.{IsCurrent, run-IsCurrent}
use h2hdb_ingest.Session.Renewal.{IsClock, fuel_for, renew-ends}
use h2hdb_ingest.Session.Heartbeat.{IsBeaten, beat-IsBeaten}

abbrev receipt : ℕ → Receipt
receipt n = record {
  receipt = n;
  gate_lease_expires_at = 9000000;
  ingest_lease_expires_at = 8000000;
}

-- the database is locked
abbrev locked : Raised
locked = record {
  error = 1;
  causes =
      record { is_operational_error = true; sqlite_errorcode = some 5; names_lock = false } ∷ [];
}

abbrev answer : ℕ → Result Raised Receipt
answer zero = err locked
answer (suc n) = ok (receipt 2)

-- one lock error, a wait, and a renewal
abbrev renewing : Renewing
renewing = record {
  now = 6000000;
  started = 50;
  answer = answer;
  checked_at = λ i. 100 + 100000 * i;
  waits_at = λ i. 100 + 100000 * i;
  is_interrupted = λ i. false;
  ended = 6200000;
}

abbrev controller : Controller
controller = new (receipt 1) 5000000 true

-- two callers, a heartbeat between them, and an operation outside the session
abbrev steps : List Step
steps =
    call_step (ok tt)
    ∷ admit_step
    ∷ beat_step 60 renewing
    ∷ operate_step
    ∷ complete_step (ok tt)
    ∷ []

run-IsCurrent_example : IsCurrent (receipt 1) (run steps (new (receipt 1) 5000000 true))
run-IsCurrent_example = run-IsCurrent (receipt 1) 5000000 true steps

-- an operation was admitted before the failure
abbrev failed_controller : Controller
failed_controller = record controller { failure = some (Error.raised locked); admitted = 1 }

abbrev steps_after : List Step
steps_after = admit_step ∷ operate_step ∷ beat_step 60 renewing ∷ operate_step ∷ steps

run-IsFenced_example : IsFenced failed_controller (run steps_after failed_controller)
run-IsFenced_example = run-IsFenced steps_after (Error.raised locked) failed_controller refl

clock : IsClock (deadline controller renewing) renewing
clock = record { starts = omega arith; ordered = λ i. omega arith; waited = λ i e. omega arith }

renew-ends_example : (renew (fuel_for 5000000) renewing controller).0 ≢ err unfinished
renew-ends_example = renew-ends renewing controller clock

beat-IsBeaten_example : IsBeaten renewing controller (beat (fuel_for 5000000) renewing controller)
beat-IsBeaten_example = beat-IsBeaten renewing controller clock
