-- ===== src/Schedule/Debounce.antt =====
-- What the deadlines mean: the quiet period, its cap, and the changes that a scan leaves pending.
use h2hdb_ingest.Prelude.{
  ℕ, ◌+◌, ◌≤◌, ◌≡◌, min, max, Bool, not, ◌||◌, Option, none, some, ok, refl, List, [], ◌∷◌, arith,
  if◌then◌else◌,
}
use h2hdb_ingest.Schedule.{
  finite, Ticket, Schedule, change, start_scan, next_scan_at, finish_scan, Event, step, run,
}
use h2hdb_ingest.Schedule.Invariant.{IsCoherent, run-IsCoherent}

abbrev pub changes : List ℕ → List Event
changes [] = []
changes (t ∷ ts) = change (finite t) ∷ changes ts

-- the latest of the times at which a change was seen
abbrev pub latest : ℕ → List ℕ → ℕ
latest t [] = t
latest t (u ∷ us) = latest (max t u) us

-- The deadline after more changes of a period that is already dirty.
changes-dirty :
    (s : Schedule) (last quiet hard : ℕ) (ts : List ℕ)
    → s.active ≡ none
    → s.last_change_at ≡ some last
    → s.quiet_seconds ≡ quiet
    → s.hard_deadline ≡ some hard
    → next_scan_at (run s (changes ts)) ≡ ok (some (min (latest last ts + quiet) hard))
unfolding run next_scan_at step
changes-dirty s last quiet hard [] a l q h = ground arith
changes-dirty s last quiet hard (t ∷ ts) a l q h =
    changes-dirty (step s (change (finite t))) (max last t) quiet hard ts (ground arith)
      (ground arith) (ground arith) (ground arith)

-- While no scan runs and nothing is pending, a first change at `t` and then any further changes
-- put the next scan one quiet period after the latest of them, and never later than the maximum
-- wait after the first, however long the changes go on.
pub next_scan_at-changes :
    (s : Schedule) (t : ℕ) (ts : List ℕ)
    → s.active ≡ none
    → s.last_change_at ≡ none
    → next_scan_at (run s (changes (t ∷ ts)))
      ≡ ok (some (min (latest t ts + s.quiet_seconds) (t + s.max_wait_seconds)))
unfolding run step
next_scan_at-changes s t ts a l =
    changes-dirty (step s (change (finite t))) t s.quiet_seconds (t + s.max_wait_seconds) ts
      (ground arith) (ground arith) (ground arith) (ground arith)

-- when the next scan is due once a scan has ended at `now`
abbrev pub due_after : Schedule → ℕ → Bool → Bool → Bool → Option ℕ
due_after s now succeeded pending_batch waiting =
    if pending_batch
    then some now
    else if not succeeded || waiting
    then some (now + s.quiet_seconds)
    else elim s.last_change_at [
      | none ↦ none
      | some last ↦ some (min (last + s.quiet_seconds) (now + s.max_wait_seconds))
    ]

-- A scan that ends at `now` leaves: the next scan due at once if a batch is pending; else one quiet
-- period later if it failed or galleries wait; else the changes noted while it ran, one quiet period
-- after the last of them and at most the maximum wait from now; else nothing.
pub next_scan_at-finish_scan :
    (s : Schedule) (ticket : Ticket) (now : ℕ) (succeeded pending_batch waiting : Bool)
    (s' : Schedule)
    → IsCoherent s
    → finish_scan s ticket (finite now) succeeded pending_batch waiting ≡ ok s'
    → next_scan_at s' ≡ ok (due_after s now succeeded pending_batch waiting)
unfolding finish_scan next_scan_at
next_scan_at-finish_scan s ticket now succeeded pending_batch waiting s' h f = ground arith

-- Changes noted in a row, seen from the state that they leave.
changes-state :
    (s : Schedule) (last : ℕ) (ts : List ℕ)
    → s.last_change_at ≡ some last
    → let s' = run s (changes ts) in
      (s'.last_change_at ≡ some (latest last ts))
      × (s'.max_wait_seconds ≡ s.max_wait_seconds)
      × (s'.quiet_seconds ≡ s.quiet_seconds)
unfolding run step
changes-state s last [] l = (l, refl, refl)
changes-state s last (t ∷ ts) l =
    ground (arith, changes-state (step s (change (finite t))) (max last t) ts)

start_scan-state :
    (s : Schedule) (begun t : ℕ) (s₁ : Schedule) (ticket : Ticket)
    → IsCoherent s
    → start_scan s (finite begun) ≡ ok (s₁, ticket)
    → let s' = step s₁ (change (finite t)) in
      IsCoherent s'
      × (s'.last_change_at ≡ some t)
      × (s'.max_wait_seconds ≡ s.max_wait_seconds)
      × (s'.quiet_seconds ≡ s.quiet_seconds)
unfolding start_scan step
start_scan-state s begun t s₁ ticket h b = ground arith

-- the value of `due_after` where the last change is known
abbrev due_dirty : ℕ → ℕ → ℕ → ℕ → Bool → Bool → Bool → ℕ
due_dirty quiet max_wait last now succeeded pending_batch waiting =
    if pending_batch
    then now
    else if not succeeded || waiting
    then now + quiet
    else min (last + quiet) (now + max_wait)

finish_scan-dirty :
    (s : Schedule) (ticket : Ticket) (now last : ℕ) (succeeded pending_batch waiting : Bool)
    (s' : Schedule)
    → IsCoherent s
    → s.last_change_at ≡ some last
    → finish_scan s ticket (finite now) succeeded pending_batch waiting ≡ ok s'
    → (d : ℕ) × (next_scan_at s' ≡ ok (some d)) × (d ≤ now + s.max_wait_seconds)
finish_scan-dirty s ticket now last succeeded pending_batch waiting s' h l f =
    let e = next_scan_at-finish_scan s ticket now succeeded pending_batch waiting s' h f in
    (
      due_dirty s.quiet_seconds s.max_wait_seconds last now succeeded pending_batch waiting,
      ground arith,
      ground arith,
    )

-- A change that is noted while a scan runs survives the scan's end, however it ends: the next scan
-- is due, within the maximum wait from that end.
pub changes_survive :
    (s : Schedule) (begun now t : ℕ) (ts : List ℕ) (succeeded pending_batch waiting : Bool)
    (s₁ s₂ : Schedule) (ticket : Ticket)
    → IsCoherent s
    → start_scan s (finite begun) ≡ ok (s₁, ticket)
    → finish_scan (run s₁ (changes (t ∷ ts))) ticket (finite now) succeeded pending_batch waiting
      ≡ ok s₂
    → (d : ℕ) × (next_scan_at s₂ ≡ ok (some d)) × (d ≤ now + s.max_wait_seconds)
unfolding run
changes_survive s begun now t ts succeeded pending_batch waiting s₁ s₂ ticket h b f =
    let s' = step s₁ (change (finite t)) in
    let (coherent, dirty, wait, _) = start_scan-state s begun t s₁ ticket h b in
    let (last, wait', _) = changes-state s' t ts dirty in
    let (d, due, bound) =
      finish_scan-dirty (run s' (changes ts)) ticket now (latest t ts) succeeded pending_batch
        waiting s₂ (run-IsCoherent s' (changes ts) coherent) last f in
    (d, due, omega arith)
