-- ===== src/Schedule/Invariant.antt =====
-- What holds of a schedule between two calls, and that `next_scan_at` never fails its assertion.
use h2hdb_ingest.Prelude.{
  ℕ, ◌≤◌, ◌<◌, ◌≡◌, Option, none, some, Result, ok, err, List, [], ◌∷◌, arith, is_some,
}
use h2hdb_ingest.Schedule.{
  Time, finite, Error, Ticket, Schedule, Event, change, start, finish, new, next_scan_at, step, run,
}

-- An active ticket is the last one that was handed out.
abbrev pub IsLast : Option Ticket → ℕ → ℕ → Type 0
IsLast none sequence generation = Unit
IsLast (some t) sequence generation = (t.sequence ≡ sequence) × (t.generation ≤ generation)

pub record IsCoherent (s : Schedule) : Type 0 where
  pub quiet_positive : 0 < s.quiet_seconds
  pub quiet_le_max_wait : s.quiet_seconds ≤ s.max_wait_seconds
  pub paired : is_some s.last_change_at ≡ is_some s.hard_deadline
  pub last_ticket : IsLast s.active s.sequence s.generation

pub new-IsCoherent :
    (quiet max_wait now : Time) (s : Schedule) → new quiet max_wait now ≡ ok s → IsCoherent s
unfolding new
new-IsCoherent (finite q) (finite w) (finite t) s h = ground arith
new-IsCoherent quiet max_wait now s h = ground arith

pub step-IsCoherent : (s : Schedule) (e : Event) → IsCoherent s → IsCoherent (step s e)
unfolding step
step-IsCoherent s (change now) h = ground arith
step-IsCoherent s (start now) h = ground arith
step-IsCoherent s (finish ticket now succeeded pending_batch waiting) h = ground arith

pub run-IsCoherent : (s : Schedule) (es : List Event) → IsCoherent s → IsCoherent (run s es)
unfolding run
run-IsCoherent s [] h = h
run-IsCoherent s (e ∷ es) h = run-IsCoherent (step s e) es (step-IsCoherent s e h)

abbrev answer : Result Error (Option ℕ) → Option ℕ
answer (ok d) = d
answer (err e) = none

next_scan_at-defined : (s : Schedule) → IsCoherent s → (d : Option ℕ) × (next_scan_at s ≡ ok d)
unfolding next_scan_at
next_scan_at-defined s h = (answer (next_scan_at s), ground arith)

-- From a new schedule, after any calls of the monitor and the resident in any order, whether they
-- raise or not, `next_scan_at` returns: its assertion on the hard deadline never fails.
pub run-next_scan_at :
    (quiet max_wait now : Time) (s : Schedule) (es : List Event)
    → new quiet max_wait now ≡ ok s
    → (d : Option ℕ) × (next_scan_at (run s es) ≡ ok d)
run-next_scan_at quiet max_wait now s es h =
    next_scan_at-defined (run s es) (run-IsCoherent s es (new-IsCoherent quiet max_wait now s h))
