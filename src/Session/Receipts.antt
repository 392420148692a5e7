-- ===== src/Session/Receipts.antt =====
-- Which receipt a call of the facade is given.
use h2hdb_ingest.Prelude.{
  ℕ, zero, suc, ◌+◌, true, false, if◌then◌else◌, ◌≡◌, Bool, Option, none, some, List, [], ◌∷◌,
  Result, ok, err, refl, inl, inr, ◌⊎◌,
}
use h2hdb_ingest.Session.{
  Raised, requested, operated, attempt, request, operate, operate_when, admit, admit_step,
  operate_step, is_final, Receipt, Error, heartbeat_failed, heartbeat_stopped, unfinished,
  Controller, Renewing, attempts, deadline, fail, renew, call, complete, raise_if_failed, beat,
  Step, call_step, complete_step, renew_step, beat_step, fail_step, check_step, step, run, Use,
  called, completed, renewed, new, turned, Ending, returned, stopped, out_of_fuel, failed,
  renewed_by, guarded, fail_locked,
}

-- the receipt of the latest renewal, or else the one of the claim
unfoldable pub latest : Receipt → List Use → Receipt
latest claim [] = claim
latest claim (renewed r ∷ us) = r
latest claim (called r ∷ us) = latest claim us
latest claim (completed r ∷ us) = latest claim us
latest claim (requested r ∷ us) = latest claim us
latest claim (operated ∷ us) = latest claim us

-- every use of the receipt was of the latest one at its time
abbrev pub AreCurrent : Receipt → List Use → Type 0
AreCurrent claim [] = Unit
AreCurrent claim (renewed r ∷ us) = AreCurrent claim us
AreCurrent claim (called r ∷ us) = (r ≡ latest claim us) × AreCurrent claim us
AreCurrent claim (completed r ∷ us) = (r ≡ latest claim us) × AreCurrent claim us
AreCurrent claim (requested r ∷ us) = (r ≡ latest claim us) × AreCurrent claim us
AreCurrent claim (operated ∷ us) = AreCurrent claim us

pub record IsCurrent (claim : Receipt) (s : Controller) : Type 0 where
  pub uses_current : AreCurrent claim s.uses
  pub holds_latest : s.session ≡ latest claim s.uses

fail_locked-IsCurrent :
    (claim : Receipt) (e : Error) (s : Controller) (o : Option Error)
    → IsCurrent claim s
    → IsCurrent claim (fail_locked e s o)
fail_locked-IsCurrent claim e s none h = record {
  uses_current = h.uses_current;
  holds_latest = h.holds_latest;
}
fail_locked-IsCurrent claim e s (some x) h = h

fail-IsCurrent :
    (claim : Receipt) (e : Error) (s : Controller) → IsCurrent claim s → IsCurrent claim (fail e s)
unfolding fail
fail-IsCurrent claim e s h = fail_locked-IsCurrent claim e s s.failure h

renewed_by-IsCurrent :
    (claim : Receipt) (w : Renewing) (o : Ending × Controller)
    → IsCurrent claim o.1
    → IsCurrent claim (renewed_by w o).1
unfolding latest
renewed_by-IsCurrent claim w (returned r, s) h = record {
  uses_current = h.uses_current;
  holds_latest = refl;
}
renewed_by-IsCurrent claim w (stopped, s) h = h
renewed_by-IsCurrent claim w (out_of_fuel, s) h = h
renewed_by-IsCurrent claim w (failed e, s) h = fail-IsCurrent claim (Error.raised e) s h

guarded-IsCurrent :
    {A : Type 0} (claim : Receipt) (s : Controller) (o : Option Error)
    (next : Result Error A × Controller)
    → IsCurrent claim s
    → IsCurrent claim next.1
    → IsCurrent claim (guarded s o next).1
guarded-IsCurrent claim s none next h k = k
guarded-IsCurrent claim s (some x) next h k = h

-- a call that takes the receipt
given-IsCurrent :
    (claim : Receipt) (s : Controller) (u : Use)
    → IsCurrent claim s
    → (u ≡ called s.session) ⊎ ((u ≡ completed s.session) ⊎ (u ≡ requested s.session))
    → IsCurrent claim (record s { uses = u ∷ s.uses })
unfolding latest
given-IsCurrent claim s u h (inl e) =
    rw e (record { uses_current = (h.holds_latest, h.uses_current); holds_latest = h.holds_latest })
given-IsCurrent claim s u h (inr (inl e)) =
    rw e (record { uses_current = (h.holds_latest, h.uses_current); holds_latest = h.holds_latest })
given-IsCurrent claim s u h (inr (inr e)) =
    rw e (record { uses_current = (h.holds_latest, h.uses_current); holds_latest = h.holds_latest })

chosen-IsCurrent :
    {A : Type 0} (claim : Receipt) (b : Bool) (x y : A × Controller)
    → IsCurrent claim x.1
    → IsCurrent claim y.1
    → IsCurrent claim (if b then x else y).1
chosen-IsCurrent claim true x y h k = h
chosen-IsCurrent claim false x y h k = k

attempt-IsCurrent :
    (claim : Receipt) (until : ℕ) (w : Renewing) (i : ℕ) (o : Result Raised Receipt)
    (s : Controller) (rest : Ending × Controller)
    → IsCurrent claim s
    → IsCurrent claim rest.1
    → IsCurrent claim (attempt until w i o s rest).1
attempt-IsCurrent claim until w i (ok r) s rest h k = h
attempt-IsCurrent claim until w i (err e) s rest h k =
    chosen-IsCurrent claim (is_final s.is_sqlite until w i e) (failed e, s)
      (if w.is_interrupted i then (stopped, s) else rest) h
      (chosen-IsCurrent claim (w.is_interrupted i) (stopped, s) rest h k)

attempts-IsCurrent :
    (claim : Receipt) (until : ℕ) (w : Renewing) (fuel i : ℕ) (s : Controller)
    → IsCurrent claim s
    → IsCurrent claim (attempts until w fuel i s).1
unfolding attempts
attempts-IsCurrent claim until w zero i s h = h
attempts-IsCurrent claim until w (suc fuel) i s h =
    let k = given-IsCurrent claim s (requested s.session) h (inr (inr refl)) in
    attempt-IsCurrent claim until w i (w.answer i) (request s)
      (attempts until w fuel (suc i) (request s)) k
      (attempts-IsCurrent claim until w fuel (suc i) (request s) k)

renew-IsCurrent :
    (claim : Receipt) (fuel : ℕ) (w : Renewing) (s : Controller)
    → IsCurrent claim s
    → IsCurrent claim (renew fuel w s).1
unfolding renew
renew-IsCurrent claim fuel w s h =
    let o = attempts (deadline s w) w fuel 0 s in
    guarded-IsCurrent claim s s.failure (renewed_by w o) h
      (renewed_by-IsCurrent claim w o (attempts-IsCurrent claim (deadline s w) w fuel 0 s h))

turned-IsCurrent :
    (claim : Receipt) (o : Result Error Receipt × Controller)
    → IsCurrent claim o.1
    → IsCurrent claim (turned o).1
turned-IsCurrent claim (ok r, s) h = h
turned-IsCurrent claim (err heartbeat_stopped, s) h = h
turned-IsCurrent claim (err unfinished, s) h = fail-IsCurrent claim unfinished s h
turned-IsCurrent claim (err heartbeat_failed, s) h = fail-IsCurrent claim heartbeat_failed s h
turned-IsCurrent claim (err (Error.raised e), s) h = fail-IsCurrent claim (Error.raised e) s h

operate-IsCurrent :
    (claim : Receipt) (s : Controller)
    → IsCurrent claim s
    → (n : ℕ) → IsCurrent claim (operate_when s n)
unfolding latest
operate-IsCurrent claim s h zero = h
operate-IsCurrent claim s h (suc n) = record {
  uses_current = h.uses_current;
  holds_latest = h.holds_latest;
}

step-IsCurrent :
    (claim : Receipt) (x : Step) (s : Controller) → IsCurrent claim s → IsCurrent claim (step x s)
unfolding step call complete beat raise_if_failed admit operate
step-IsCurrent claim (call_step (ok u)) s h =
    let used = given-IsCurrent claim s (called s.session) h (inl refl) in
    guarded-IsCurrent claim s s.failure (ok u, record s { uses = called s.session ∷ s.uses }) h used
step-IsCurrent claim (call_step (err e)) s h =
    let used = given-IsCurrent claim s (called s.session) h (inl refl) in
    guarded-IsCurrent {A = Unit} claim s s.failure
      (err (Error.raised e), record s { uses = called s.session ∷ s.uses }) h used
step-IsCurrent claim (complete_step (ok u)) s h =
    let used = given-IsCurrent claim s (completed s.session) h (inr (inl refl)) in
    guarded-IsCurrent claim s s.failure (ok u, record s { uses = completed s.session ∷ s.uses }) h
      used
step-IsCurrent claim (complete_step (err e)) s h =
    let used = given-IsCurrent claim s (completed s.session) h (inr (inl refl)) in
    guarded-IsCurrent {A = Unit} claim s s.failure
      (err (Error.raised e), record s { uses = completed s.session ∷ s.uses }) h used
step-IsCurrent claim (renew_step fuel w) s h = renew-IsCurrent claim fuel w s h
step-IsCurrent claim (beat_step fuel w) s h =
    turned-IsCurrent claim (renew fuel w s) (renew-IsCurrent claim fuel w s h)
step-IsCurrent claim (fail_step e) s h = fail-IsCurrent claim e s h
step-IsCurrent claim check_step s h = guarded-IsCurrent claim s s.failure (ok tt, s) h h
step-IsCurrent claim admit_step s h =
    guarded-IsCurrent claim s s.failure (ok tt, record s { admitted = s.admitted + 1 }) h
      (record { uses_current = h.uses_current; holds_latest = h.holds_latest })
step-IsCurrent claim operate_step s h = operate-IsCurrent claim s h s.admitted

run-kept :
    (claim : Receipt) (xs : List Step) (s : Controller)
    → IsCurrent claim s
    → IsCurrent claim (run xs s)
unfolding run
run-kept claim [] s h = h
run-kept claim (x ∷ xs) s h = run-kept claim xs (step x s) (step-IsCurrent claim x s h)

-- However the threads interleave, every facade call that takes the receipt, the requests of the
-- renewals included, is given the one that the latest renewal before it returned, or the claim's if
-- there was none, and so will the next.
pub run-IsCurrent :
    (claim : Receipt) (duration : ℕ) (is_sqlite : Bool) (xs : List Step)
    → IsCurrent claim (run xs (new claim duration is_sqlite))
unfolding latest
run-IsCurrent claim duration is_sqlite xs =
    run-kept claim xs (new claim duration is_sqlite)
      (record { uses_current = tt; holds_latest = refl })
