-- ===== src/Schedule/Tickets.antt =====
-- A ticket acknowledges its own scan, once.
use h2hdb_ingest.Prelude.{ℕ, ◌≤◌, ◌≡◌, ◌≢◌, Bool, Option, none, some, ok, List, [], ◌∷◌, arith}
use h2hdb_ingest.Schedule.{
  Time, finite, Ticket, Schedule, Event, change, start, finish, finish_scan, step, run,
}
use h2hdb_ingest.Schedule.Invariant.{IsCoherent}

-- The scan of this sequence number was started, and is not running.
abbrev NotRunning : Option Ticket → ℕ → Type 0
NotRunning none n = Unit
NotRunning (some t) n = t.sequence ≢ n

record IsSpent (n : ℕ) (s : Schedule) : Type 0 where
  handed_out : n ≤ s.sequence
  not_running : NotRunning s.active n

step-IsSpent : (n : ℕ) (s : Schedule) (e : Event) → IsSpent n s → IsSpent n (step s e)
unfolding step
step-IsSpent n s (change now) h = ground arith
step-IsSpent n s (start now) h = ground arith
step-IsSpent n s (finish ticket now succeeded pending_batch waiting) h = ground arith

run-IsSpent : (n : ℕ) (s : Schedule) (es : List Event) → IsSpent n s → IsSpent n (run s es)
unfolding run
run-IsSpent n s [] h = h
run-IsSpent n s (e ∷ es) h = run-IsSpent n (step s e) es (step-IsSpent n s e h)

finish_scan-IsSpent :
    (s : Schedule) (ticket : Ticket) (now : Time) (a b c : Bool) (s' : Schedule)
    → IsCoherent s
    → finish_scan s ticket now a b c ≡ ok s'
    → IsSpent ticket.sequence s'
unfolding finish_scan
finish_scan-IsSpent s ticket now a b c s' h f = ground arith

finish_scan-spent :
    (s : Schedule) (ticket : Ticket) (now : ℕ) (a b c : Bool) (s' : Schedule)
    → IsSpent ticket.sequence s
    → finish_scan s ticket (finite now) a b c ≢ ok s'
unfolding finish_scan
finish_scan-spent s ticket now a b c s' h = ground arith

-- Once a scan has been finished, its ticket is refused for ever: after any further calls, whatever
-- they start, note or finish, a second completion with the same ticket does not return.
pub finish_scan-once :
    (s : Schedule) (ticket : Ticket) (now : Time) (a b c : Bool) (s' : Schedule) (es : List Event)
    (later : ℕ) (d e f : Bool) (s'' : Schedule)
    → IsCoherent s
    → finish_scan s ticket now a b c ≡ ok s'
    → finish_scan (run s' es) ticket (finite later) d e f ≢ ok s''
finish_scan-once s ticket now a b c s' es later d e f s'' h done =
    finish_scan-spent (run s' es) ticket later d e f s''
      (run-IsSpent ticket.sequence s' es (finish_scan-IsSpent s ticket now a b c s' h done))
