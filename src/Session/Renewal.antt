-- ===== src/Session/Renewal.antt =====
-- A renewal ends, and what its end says of the controller.
use h2hdb_ingest.Prelude.{
  ℕ, zero, suc, ◌≡◌, ◌≢◌, ◌+◌, ◌*◌, ◌/◌, ◌≤◌, false, Option, none, some, Result, err, arith, refl,
  Bool-cases, inl, inr, leb,
}
use h2hdb_ingest.Session.{
  Receipt, Error, unfinished, Controller, Renewing, attempts, deadline, renew, request, Ending,
  returned, stopped, out_of_fuel, failed, renewed_by, guarded, wait_of, sqlite_renew_retry,
}
use h2hdb_ingest.Library.Inversion.{Result-cases}

-- The clock is monotonic, and a wait that nothing interrupts lasts as long as it was asked to.
pub record IsClock (until : ℕ) (w : Renewing) : Type 0 where
  pub starts : w.started ≤ w.checked_at 0
  pub ordered : (i : ℕ) → w.checked_at i ≤ w.waits_at i
  pub waited :
      (i : ℕ) → w.is_interrupted i ≡ false → w.waits_at i + wait_of until w i ≤ w.checked_at (suc i)

-- A lock error is retried only before the deadline, and the wait brings the next attempt nearer.
nearer :
    (until : ℕ) (w : Renewing) (fuel i : ℕ)
    → IsClock until w
    → until ≤ w.checked_at i + sqlite_renew_retry * suc fuel
    → w.is_interrupted i ≡ false
    → until ≤ w.checked_at (suc i) + sqlite_renew_retry * fuel
nearer until w fuel i c h b = omega (arith, c.ordered i, c.waited i b)

-- The loop goes on only after a lock error, before the deadline, and after a whole wait.
attempts-retries :
    (until : ℕ) (w : Renewing) (fuel i : ℕ) (s : Controller)
    → (attempts until w (suc fuel) i s).0 ≡ out_of_fuel
    → ((attempts until w fuel (suc i) (request s)).0 ≡ out_of_fuel)
      × (w.is_interrupted i ≡ false)
      × (leb until (w.checked_at i) ≡ false)
unfolding attempts
attempts-retries until w fuel i s e = elim (Result-cases (w.answer i)) [
  | inl (r, a) ↦ absurd (ground arith)
  | inr (x, a) ↦ elim (Bool-cases (w.is_interrupted i)) [
    | inl b ↦ absurd (ground arith)
    | inr b ↦ elim (Bool-cases (leb until (w.checked_at i))) [
      | inl d ↦ absurd (ground arith)
      | inr d ↦ (ground arith, b, d)
    ]
  ]
]

attempts-ends :
    (until : ℕ) (w : Renewing) (fuel i : ℕ) (s : Controller)
    → IsClock until w
    → until ≤ w.checked_at i + sqlite_renew_retry * fuel
    → (attempts until w (suc fuel) i s).0 ≢ out_of_fuel
attempts-ends until w zero i s c h e =
    let (_, _, d) = attempts-retries until w zero i s e in ground (arith, d)
attempts-ends until w (suc f) i s c h e =
    let (rest, b, d) = attempts-retries until w (suc f) i s e in
    attempts-ends until w f (suc i) (request s) c (nearer until w f i c h b) rest

-- the fuel of a renewal under a lease
abbrev pub fuel_for : ℕ → ℕ
fuel_for duration = suc (suc (duration / sqlite_renew_retry))

renewed_by-ends :
    (w : Renewing) (o : Ending × Controller)
    → o.0 ≢ out_of_fuel
    → (renewed_by w o).0 ≢ err unfinished
renewed_by-ends w (returned r, s) h e = ground arith
renewed_by-ends w (stopped, s) h e = ground arith
renewed_by-ends w (failed x, s) h e = ground arith
renewed_by-ends w (out_of_fuel, s) h e = h refl

guarded-ends :
    (s : Controller) (o : Option Error) (next : Result Error Receipt × Controller)
    → next.0 ≢ err unfinished
    → (guarded s o next).0 ≢ err unfinished
guarded-ends s none next h e = h e
guarded-ends s (some x) next h e = ground arith

fuel_enough :
    (until w0 c0 duration : ℕ)
    → until ≤ w0 + duration
    → w0 ≤ c0
    → until ≤ c0 + sqlite_renew_retry * suc (duration / sqlite_renew_retry)
fuel_enough until w0 c0 duration h k = omega arith

-- With the fuel of its lease, the loop of a renewal ends.
pub lease-ends :
    (w : Renewing) (s : Controller)
    → IsClock (deadline s w) w
    → (attempts (deadline s w) w (fuel_for s.lease_duration_microseconds) 0 s).0 ≢ out_of_fuel
lease-ends w s c =
    let until = deadline s w in
    let duration = s.lease_duration_microseconds in
    let enough = fuel_enough until w.started (w.checked_at 0) duration (omega arith) c.starts in
    attempts-ends until w (suc (duration / sqlite_renew_retry)) 0 s c enough

-- If the clock is monotonic and waits last, a renewal makes at most a bounded number of attempts,
-- one for each tenth of a second of the lease and two more, and then it returns, stops or raises.
pub renew-ends :
    (w : Renewing) (s : Controller)
    → IsClock (deadline s w) w
    → (renew (fuel_for s.lease_duration_microseconds) w s).0 ≢ err unfinished
unfolding renew
renew-ends w s c =
    let o = attempts (deadline s w) w (fuel_for s.lease_duration_microseconds) 0 s in
    guarded-ends s s.failure (renewed_by w o) (renewed_by-ends w o (lease-ends w s c))
