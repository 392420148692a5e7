-- ===== src/Schedule.antt =====
-- source_schedule.py: the debounce of source scans. Times are ticks of the caller's clock.
-- The proofs are in the modules below.
pub mod Invariant
pub mod Debounce
pub mod Tickets
use h2hdb_ingest.Prelude.{
  ℕ, ◌+◌, min, max, Bool, false, not, ◌&&◌, ◌||◌, Option, none, some, Result, ok, err, ◌>>=◌, ltb,
  leb, ◌==◌, if◌then◌else◌, is_some, List, [], ◌∷◌,
}

-- A `float` argument: `math.isfinite` fails on infinities and NaN.
pub data Time : Type 0 where
  finite : ℕ → Time
  non_finite : Time

pub data Error : Type 0 where
  invalid_interval invalid_time already_active stale_ticket ends_before_start : Error
  unpublished_batch missing_deadline : Error

pub record Ticket : Type 0 where
  pub sequence : ℕ
  pub generation : ℕ
  pub started_at : ℕ

pub record Schedule : Type 0 where
  pub quiet_seconds : ℕ
  pub max_wait_seconds : ℕ
  pub generation : ℕ
  pub sequence : ℕ
  pub active : Option Ticket
  pub last_change_at : Option ℕ
  pub hard_deadline : Option ℕ

-- `_validate_time`
abbrev validate_time : Time → Result Error ℕ
validate_time (finite t) = ok t
validate_time non_finite = err invalid_time

-- the two intervals, when both are finite and `0 < quiet <= max_wait`
abbrev interval : Time → Time → Result Error (ℕ × ℕ)
interval (finite quiet) (finite max_wait) =
    if ltb 0 quiet && leb quiet max_wait then ok (quiet, max_wait) else err invalid_interval
interval _ _ = err invalid_interval

-- `__init__`
unfoldable pub new : Time → Time → Time → Result Error Schedule
new quiet max_wait now = do
  (q, w) ← interval quiet max_wait
  t ← validate_time now
  ok (record {
    quiet_seconds = q;
    max_wait_seconds = w;
    generation = 1;
    sequence = 0;
    active = none;
    last_change_at = some t;
    hard_deadline = some t;
  })

-- the first change of a clean period sets the hard deadline, later ones only move the quiet period
abbrev noted : Schedule → ℕ → Schedule
noted s t = elim s.last_change_at [
  | none ↦ record s {
    generation = s.generation + 1;
    hard_deadline = some (t + s.max_wait_seconds);
    last_change_at = some t;
  }
  | some last ↦ record s { generation = s.generation + 1; last_change_at = some (max last t) }
]

unfoldable pub note_change : Schedule → Time → Result Error Schedule
note_change s now = do t ← validate_time now; ok (noted s t)

-- `assert self._hard_deadline is not None`
abbrev deadline : Schedule → ℕ → Result Error (Option ℕ)
deadline s last = elim s.hard_deadline [
  | none ↦ err missing_deadline
  | some hard ↦ ok (some (min (last + s.quiet_seconds) hard))
]

unfoldable pub next_scan_at : Schedule → Result Error (Option ℕ)
next_scan_at s =
    if is_some s.active
    then ok none
    else elim s.last_change_at [ none ↦ ok none | some last ↦ deadline s last ]

-- the ticket that `start_scan` hands out
abbrev ticket_at : Schedule → ℕ → Ticket
ticket_at s t = record { sequence = s.sequence + 1; generation = s.generation; started_at = t }

abbrev started : Schedule → ℕ → Schedule
started s t = record s {
  sequence = s.sequence + 1;
  active = some (ticket_at s t);
  last_change_at = none;
  hard_deadline = none;
}

unfoldable pub start_scan : Schedule → Time → Result Error (Schedule × Ticket)
start_scan s now = do
  t ← validate_time now
  if is_some s.active then err already_active else ok (started s t, ticket_at s t)

-- `self._active is ticket`: a schedule hands out each ticket once, so a ticket is its fields. A copy
-- of the active ticket, which the code refuses, is accepted here.
abbrev is_active : Option Ticket → Ticket → Bool
is_active none t = false
is_active (some a) t =
    a.sequence == t.sequence && (a.generation == t.generation && a.started_at == t.started_at)

-- the pending change and its deadline when a scan ends
abbrev settled : Schedule → ℕ → Bool → Bool → Bool → Schedule
settled s t succeeded pending_batch waiting_galleries =
    let last =
      if pending_batch || (not succeeded || waiting_galleries) then some t else s.last_change_at in
    record s {
      active = none;
      last_change_at = last;
      hard_deadline =
          if pending_batch
          then some t
          else if is_some last
          then some (t + s.max_wait_seconds)
          else s.hard_deadline;
    }

unfoldable pub finish_scan : Schedule → Ticket → Time → Bool → Bool → Bool → Result Error Schedule
finish_scan s ticket now succeeded pending_batch waiting_galleries = do
  t ← validate_time now
  if (pending_batch || waiting_galleries) && not succeeded
      then err unpublished_batch
      else if not (is_active s.active ticket)
      then err stale_ticket
      else if ltb t ticket.started_at
      then err ends_before_start
      else ok (settled s t succeeded pending_batch waiting_galleries)

-- what the monitor and the resident may call, in any order; a call that raises changes nothing
pub data Event : Type 0 where
  change : Time → Event
  start : Time → Event
  finish : Ticket → Time → Bool → Bool → Bool → Event

abbrev kept : Schedule → Result Error Schedule → Schedule
kept s (ok s') = s'
kept s (err e) = s

abbrev kept_first : Schedule → Result Error (Schedule × Ticket) → Schedule
kept_first s (ok r) = r.0
kept_first s (err e) = s

unfoldable pub step : Schedule → Event → Schedule
unfolding note_change start_scan finish_scan
step s (change now) = kept s (note_change s now)
step s (start now) = kept_first s (start_scan s now)
step s (finish ticket now succeeded pending_batch waiting) =
    kept s (finish_scan s ticket now succeeded pending_batch waiting)

unfoldable pub run : Schedule → List Event → Schedule
run s [] = s
run s (e ∷ es) = run (step s e) es
