-- ===== src/Session.antt =====
-- session.py: the receipt of an ingest session, which the calls of every thread use and a heartbeat
-- renews. Each method takes the controller's lock, so a method is one step, but for `outside_session`
-- and `prepare`: their operation follows its check in a step of its own. Times are microseconds.
pub mod Fence
pub mod Receipts
pub mod Heartbeat
pub mod Renewal
use h2hdb_ingest.Prelude.{
  ℕ, zero, suc, ◌+◌, ◌-◌, ◌%◌, min, Bool, true, false, not, ◌&&◌, ◌||◌, Option, none, some, List,
  [], ◌∷◌, Result, ok, err, ltb, leb, ◌==◌, if◌then◌else◌,
}

-- `VNextIngestSession` of the h2hdb package: a receipt, and when its two leases expire
pub record Receipt : Type 0 where
  pub receipt : ℕ
  pub gate_lease_expires_at : ℕ
  pub ingest_lease_expires_at : ℕ

-- an exception, as `_is_sqlite_lock_error` looks at it
pub record Cause : Type 0 where
  pub is_operational_error : Bool
  pub sqlite_errorcode : Option ℕ
  pub names_lock : Bool

-- An error is the list of the distinct exceptions that its causes and contexts lead to.
pub record Raised : Type 0 where
  pub error : ℕ
  pub causes : List Cause

abbrev is_lock_code : ℕ → Bool
is_lock_code code = code % 256 == 5 || code % 256 == 6

abbrev is_lock_cause : Cause → Bool → Option ℕ → Bool
is_lock_cause c rest none = c.names_lock || rest
is_lock_cause c rest (some code) = is_lock_code code

-- `_is_sqlite_lock_error`
unfoldable pub is_sqlite_lock_error : List Cause → Bool
is_sqlite_lock_error [] = false
is_sqlite_lock_error (c ∷ cs) =
    let rest = is_sqlite_lock_error cs in
    if c.is_operational_error then is_lock_cause c rest c.sqlite_errorcode else rest

-- what a method of the controller raises
pub data Error : Type 0 where
  heartbeat_failed heartbeat_stopped unfinished : Error
  raised : Raised → Error

-- a call of the facade with the receipt that it was given, the receipt that a renewal has returned,
-- and an operation outside the session, which takes none
pub data Use : Type 0 where
  called completed requested : Receipt → Use
  renewed : Receipt → Use
  operated : Use

-- `IngestSessionController`. `uses` is the history of the facade's calls, the latest first, and
-- `admitted` counts the operations outside the session that have passed their check and have yet to
-- call the facade.
pub record Controller : Type 0 where
  pub session : Receipt
  pub lease_duration_microseconds : ℕ
  pub is_sqlite : Bool
  pub failure : Option Error
  pub last_renewed_at : Option ℕ
  pub uses : List Use
  pub admitted : ℕ

abbrev pub new : Receipt → ℕ → Bool → Controller
new session duration is_sqlite = record {
  session = session;
  lease_duration_microseconds = duration;
  is_sqlite = is_sqlite;
  failure = none;
  last_renewed_at = none;
  uses = [];
  admitted = 0;
}

abbrev pub sqlite_renew_retry : ℕ
sqlite_renew_retry = 100000

-- What one renewal meets: the wall clock and the monotonic clock at its start, and for each attempt
-- the answer of `renew_ingest`, the two readings of the monotonic clock, and whether the wait was
-- interrupted.
pub record Renewing : Type 0 where
  pub now : ℕ
  pub started : ℕ
  pub answer : ℕ → Result Raised Receipt
  pub checked_at : ℕ → ℕ
  pub waits_at : ℕ → ℕ
  pub is_interrupted : ℕ → Bool
  pub ended : ℕ

-- the monotonic time after which a lock error is not retried
abbrev pub deadline : Controller → Renewing → ℕ
deadline s w =
    w.started
    + (min s.lease_duration_microseconds
          (min s.session.gate_lease_expires_at s.session.ingest_lease_expires_at - w.now)
        - 500000)

-- the longest wait before the next attempt
abbrev pub wait_of : ℕ → Renewing → ℕ → ℕ
wait_of until w i = min sqlite_renew_retry (until - w.waits_at i)

-- how the loop of `_renew_locked` ends
pub data Ending : Type 0 where
  returned : Receipt → Ending
  stopped out_of_fuel : Ending
  failed : Raised → Ending

-- one call of `renew_ingest`, with the receipt of the session
abbrev pub request : Controller → Controller
request s = record s { uses = requested s.session ∷ s.uses }

-- the errors that the loop does not retry
abbrev pub is_final : Bool → ℕ → Renewing → ℕ → Raised → Bool
is_final is_sqlite until w i e =
    not is_sqlite || (not (is_sqlite_lock_error e.causes) || leb until (w.checked_at i))

abbrev retry : ℕ → Renewing → ℕ → Raised → Controller → Ending × Controller → Ending × Controller
retry until w i e s rest =
    if is_final s.is_sqlite until w i e
    then (failed e, s)
    else if w.is_interrupted i
    then (stopped, s)
    else rest

abbrev pub attempt :
    ℕ
    → Renewing
    → ℕ
    → Result Raised Receipt
    → Controller
    → Ending × Controller
    → Ending × Controller
attempt until w i (ok r) s rest = (returned r, s)
attempt until w i (err e) s rest = retry until w i e s rest

-- the loop, from its attempt `i`
unfoldable pub attempts : ℕ → Renewing → ℕ → ℕ → Controller → Ending × Controller
attempts until w zero i s = (out_of_fuel, s)
attempts until w (suc fuel) i s =
    let rest = attempts until w fuel (suc i) (request s) in
    attempt until w i (w.answer i) (request s) rest

-- `_fail_locked`: the first failure stays
abbrev pub fail_locked : Error → Controller → Option Error → Controller
fail_locked e s none = record s { failure = some e }
fail_locked e s (some _) = s

unfoldable pub fail : Error → Controller → Controller
fail e s = fail_locked e s s.failure

abbrev pub renewed_by : Renewing → Ending × Controller → Result Error Receipt × Controller
renewed_by w (returned r, s) =
    (ok r, record s { session = r; last_renewed_at = some w.ended; uses = renewed r ∷ s.uses })
renewed_by w (stopped, s) = (err heartbeat_stopped, s)
renewed_by w (out_of_fuel, s) = (err unfinished, s)
renewed_by w (failed e, s) = (err (raised e), fail (raised e) s)

abbrev pub guarded {ℓ} :
    {A : Type ℓ}
    → Controller
    → Option Error
    → Result Error A × Controller
    → Result Error A × Controller
guarded s none next = next
guarded s (some _) next = (err heartbeat_failed, s)

-- `renew`, with fuel for the loop
unfoldable pub renew : ℕ → Renewing → Controller → Result Error Receipt × Controller
renew fuel w s = guarded s s.failure (renewed_by w (attempts (deadline s w) w fuel 0 s))

-- `call`, of an operation that returns or raises: the controller keeps no trace of which
unfoldable pub call : Result Raised (Unit {0}) → Controller → Result Error (Unit {0}) × Controller
call (ok u) s = guarded s s.failure (ok u, record s { uses = called s.session ∷ s.uses })
call (err e) s = guarded s s.failure (err (raised e), record s { uses = called s.session ∷ s.uses })

unfoldable pub complete :
    Result Raised (Unit {0}) → Controller → Result Error (Unit {0}) × Controller
complete (ok u) s = guarded s s.failure (ok u, record s { uses = completed s.session ∷ s.uses })
complete (err e) s =
    guarded s s.failure (err (raised e), record s { uses = completed s.session ∷ s.uses })

-- `raise_if_failed`, which `outside_session` and `prepare` also do after their operation
unfoldable pub raise_if_failed : Controller → Result Error (Unit {0}) × Controller
raise_if_failed s = guarded s s.failure (ok tt, s)

-- `outside_session` and `prepare` up to the end of their lock: the check that admits the operation
unfoldable pub admit : Controller → Result Error (Unit {0}) × Controller
admit s = guarded s s.failure (ok tt, record s { admitted = s.admitted + 1 })

-- the operation itself, which takes the facade with no lock
abbrev pub operate_when : Controller → ℕ → Controller
operate_when s zero = s
operate_when s (suc n) = record s { admitted = n; uses = operated ∷ s.uses }

unfoldable pub operate : Controller → Controller
operate s = operate_when s s.admitted

-- One turn of the heartbeat's `_run`: whether it goes on, and the controller.
abbrev pub turned : Result Error Receipt × Controller → Bool × Controller
turned (ok r, s) = (true, s)
turned (err heartbeat_stopped, s) = (false, s)
turned (err unfinished, s) = (false, fail unfinished s)
turned (err heartbeat_failed, s) = (false, fail heartbeat_failed s)
turned (err (raised e), s) = (false, fail (raised e) s)

unfoldable pub beat : ℕ → Renewing → Controller → Bool × Controller
beat fuel w s = turned (renew fuel w s)

-- a step of some thread
pub data Step : Type 0 where
  call_step complete_step : Result Raised (Unit {0}) → Step
  renew_step beat_step : ℕ → Renewing → Step
  fail_step : Error → Step
  check_step admit_step operate_step : Step

unfoldable pub step : Step → Controller → Controller
step (call_step r) s = (call r s).1
step (complete_step r) s = (complete r s).1
step (renew_step fuel w) s = (renew fuel w s).1
step (beat_step fuel w) s = (beat fuel w s).1
step (fail_step e) s = fail e s
step check_step s = (raise_if_failed s).1
step admit_step s = (admit s).1
step operate_step s = operate s

unfoldable pub run : List Step → Controller → Controller
run [] s = s
run (x ∷ xs) s = run xs (step x s)
