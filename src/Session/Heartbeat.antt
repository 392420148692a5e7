-- ===== src/Session/Heartbeat.antt =====
-- What a turn of the heartbeat leaves.
use h2hdb_ingest.Prelude.{
  ℕ, zero, suc, ◌≡◌, ◌≢◌, ◌+◌, Bool, true, false, Option, none, some, Result, ok, err, List, ◌∷◌,
  arith, refl, Option-cases, Bool-cases, inl, inr, is_some, ◌⊎◌,
}
use h2hdb_ingest.Session.{
  Receipt, Raised, Error, Controller, Renewing, attempts, attempt, request, is_final, deadline,
  fail, renew, beat, Ending, returned, stopped, out_of_fuel, failed, renewed_by, guarded, turned,
  Use, renewed, requested,
}
use h2hdb_ingest.Session.Renewal.{IsClock, fuel_for, lease-ends}

-- `n` requests with a receipt, after the other uses
abbrev pub requests : ℕ → Receipt → List Use → List Use
requests zero r us = us
requests (suc n) r us = requests n r (requested r ∷ us)

-- the controller after the attempts up to the `n`-th, which all request with its receipt
abbrev pub tried : ℕ → Controller → Controller
tried n s = record s { uses = requests (suc n) s.session s.uses }

-- the attempt met an error that is retried, and its wait was interrupted or not
abbrev pub IsRetried : Bool → ℕ → Renewing → ℕ → Bool → Type 0
IsRetried is_sqlite until w n interrupted =
    (e : Raised) × (w.answer n ≡ err e)
    × (is_final is_sqlite until w n e ≡ false)
    × (w.is_interrupted n ≡ interrupted)

-- `n` attempts from the `i`-th on, each of which led to the next one
abbrev pub AreRetried : Bool → ℕ → Renewing → ℕ → ℕ → Type 0
AreRetried is_sqlite until w i zero = Unit
AreRetried is_sqlite until w i (suc n) =
    IsRetried is_sqlite until w i false × AreRetried is_sqlite until w (suc i) n

-- the ending of a loop whose last attempt is the `n`-th
abbrev IsEndedAt : Bool → ℕ → Renewing → ℕ → Ending → Type 0
IsEndedAt is_sqlite until w n (returned r) = w.answer n ≡ ok r
IsEndedAt is_sqlite until w n stopped = IsRetried is_sqlite until w n true
IsEndedAt is_sqlite until w n (failed e) =
    (w.answer n ≡ err e) × (is_final is_sqlite until w n e ≡ true)
IsEndedAt is_sqlite until w n out_of_fuel = Unit

-- an ending from the attempt `i` on, and the attempts after that one
record IsTried (until : ℕ) (w : Renewing) (i : ℕ) (s : Controller) (o : Ending × Controller)
    : Type 0 where
  more : ℕ
  retried : AreRetried s.is_sqlite until w i more
  ended : IsEndedAt s.is_sqlite until w (i + more) o.0
  left : o.1 ≡ tried more s

IsEndedAt-eq :
    (is_sqlite : Bool) (until : ℕ) (w : Renewing) (m n : ℕ) (e : Ending)
    → m ≡ n
    → IsEndedAt is_sqlite until w m e
    → IsEndedAt is_sqlite until w n e
IsEndedAt-eq is_sqlite until w m n e p h = rw p at h

at-IsTried :
    (until : ℕ) (w : Renewing) (i : ℕ) (s : Controller) (e : Ending)
    → IsEndedAt s.is_sqlite until w i e
    → IsTried until w i s (e, request s)
at-IsTried until w i s e h = record {
  more = 0;
  retried = tt;
  ended = IsEndedAt-eq s.is_sqlite until w i (i + 0) e (omega arith) h;
  left = refl;
}

later-IsTried :
    (until : ℕ) (w : Renewing) (i : ℕ) (s : Controller) (o : Ending × Controller)
    → IsRetried s.is_sqlite until w i false
    → IsTried until w (suc i) (request s) o
    → IsTried until w i s o
later-IsTried until w i s o r h = record {
  more = suc h.more;
  retried = (r, h.retried);
  ended =
      IsEndedAt-eq s.is_sqlite until w (suc i + h.more) (i + suc h.more) o.0 (omega arith) h.ended;
  left = h.left;
}

abbrev IsTriedOrOut : ℕ → Renewing → ℕ → Controller → Ending × Controller → Type 0
IsTriedOrOut until w i s o = (o.0 ≡ out_of_fuel) ⊎ IsTried until w i s o

attempt-IsTried :
    (until : ℕ) (w : Renewing) (i : ℕ) (a : Result Raised Receipt) (s : Controller)
    (rest : Ending × Controller)
    → w.answer i ≡ a
    → IsTriedOrOut until w (suc i) (request s) rest
    → IsTriedOrOut until w i s (attempt until w i a (request s) rest)
attempt-IsTried until w i (ok r) s rest h k = inr (at-IsTried until w i s (returned r) h)
attempt-IsTried until w i (err e) s rest h k =
    elim (Bool-cases (is_final s.is_sqlite until w i e)) [
      | inl f ↦ rw f (inr (at-IsTried until w i s (failed e) (h, f)))
      | inr f ↦ elim (Bool-cases (w.is_interrupted i)) [
        | inl b ↦ rw f (rw b (inr (at-IsTried until w i s stopped (e, h, f, b))))
        | inr b ↦ rw f (
            rw b (elim k [
              | inl o ↦ inl o
              | inr t ↦ inr (later-IsTried until w i s rest (e, h, f, b) t)
            ]))
      ]
    ]

attempts-IsTried :
    (until : ℕ) (w : Renewing) (fuel i : ℕ) (s : Controller)
    → IsTriedOrOut until w i s (attempts until w fuel i s)
unfolding attempts
attempts-IsTried until w zero i s = inl refl
attempts-IsTried until w (suc fuel) i s =
    let rest = attempts until w fuel (suc i) (request s) in
    attempt-IsTried until w i (w.answer i) s rest refl
      (attempts-IsTried until w fuel (suc i) (request s))

-- the controller after a renewal that the `n`-th attempt obtained
abbrev pub renewed_at : Renewing → ℕ → Receipt → Controller → Controller
renewed_at w n r s = record (tried n s) {
  session = r;
  last_renewed_at = some w.ended;
  uses = renewed r ∷ requests (suc n) s.session s.uses;
}

-- the attempts before the `n`-th one were all retried
abbrev pub AreRetriedBefore : Renewing → Controller → ℕ → Type 0
AreRetriedBefore w s n = AreRetried s.is_sqlite (deadline s w) w 0 n

-- why the thread of the heartbeat ends, and what it leaves: a wait was interrupted, an attempt met
-- an error that is not retried, or the session had failed before
pub data IsOver (w : Renewing) (s t : Controller) : Type 0 where
  interrupted :
      (n : ℕ)
      → s.failure ≡ none
      → AreRetriedBefore w s n
      → IsRetried s.is_sqlite (deadline s w) w n true
      → t ≡ tried n s
      → IsOver w s t
  refused :
      (n : ℕ) (e : Raised)
      → s.failure ≡ none
      → AreRetriedBefore w s n
      → w.answer n ≡ err e
      → is_final s.is_sqlite (deadline s w) w n e ≡ true
      → t ≡ record (tried n s) { failure = some (Error.raised e) }
      → IsOver w s t
  over_before : is_some s.failure ≡ true → t ≡ s → IsOver w s t

-- what one turn of the heartbeat leaves
abbrev pub IsBeaten : Renewing → Controller → Bool × Controller → Type 0
IsBeaten w s (true, t) =
    (s.failure ≡ none)
    × ((n : ℕ) × AreRetriedBefore w s n
        × (w.answer n ≡ ok t.session)
        × (t ≡ renewed_at w n t.session s))
IsBeaten w s (false, t) = IsOver w s t

fail-new :
    (e : Error) (s : Controller)
    → s.failure ≡ none
    → fail e (fail e s) ≡ record s { failure = some e }
unfolding fail
fail-new e s h = rw h refl

fail-old : (e : Error) (s : Controller) → is_some s.failure ≡ true → fail e s ≡ s
unfolding fail
fail-old e s h = elim (Option-cases s.failure) [
  | inl n ↦ absurd (ground (arith, n, h))
  | inr (x, n) ↦ rw n refl
]

ending-IsBeaten :
    (w : Renewing) (s : Controller) (n : ℕ) (e : Ending)
    → s.failure ≡ none
    → e ≢ out_of_fuel
    → AreRetriedBefore w s n
    → IsEndedAt s.is_sqlite (deadline s w) w n e
    → IsBeaten w s (turned (renewed_by w (e, tried n s)))
ending-IsBeaten w s n (returned r) h k b a = (h, (n, b, a, refl))
ending-IsBeaten w s n stopped h k b a = interrupted n h b a refl
ending-IsBeaten w s n (failed e) h k b (a, f) =
    refused n e h b a f (fail-new (Error.raised e) (tried n s) h)
ending-IsBeaten w s n out_of_fuel h k b a = absurd (k refl)

tried-IsBeaten :
    (w : Renewing) (s : Controller) (o : Ending × Controller)
    → s.failure ≡ none
    → o.0 ≢ out_of_fuel
    → IsTried (deadline s w) w 0 s o
    → IsBeaten w s (turned (renewed_by w o))
tried-IsBeaten w s (e, t) h k x =
    let ended =
      IsEndedAt-eq s.is_sqlite (deadline s w) w (0 + x.more) x.more e (omega arith) x.ended in
    rw x.left (ending-IsBeaten w s x.more e h k x.retried ended)

guarded-IsBeaten :
    (w : Renewing) (s : Controller) (o : Option Error) (next : Result Error Receipt × Controller)
    → s.failure ≡ o
    → (s.failure ≡ none → IsBeaten w s (turned next))
    → IsBeaten w s (turned (guarded s o next))
guarded-IsBeaten w s none next e h = h e
guarded-IsBeaten w s (some x) next e h =
    let f : is_some s.failure ≡ true = rw e refl in
    over_before f (fail-old Error.heartbeat_failed s f)

-- If the clock is monotonic and waits last, a turn of the heartbeat ends, after attempts of which all
-- but the last met a lock error before the deadline. It goes on only when the last one returned a
-- receipt, which is then the session's, with the renewal recorded and no failure. It ends the thread
-- only when the wait after such an error was interrupted, which changes nothing but that the
-- attempts are recorded, or when the last one met an error that is not retried, which is then the
-- session's failure, or when the session had failed before, which changes nothing.
pub beat-IsBeaten :
    (w : Renewing) (s : Controller)
    → IsClock (deadline s w) w
    → IsBeaten w s (beat (fuel_for s.lease_duration_microseconds) w s)
unfolding beat renew
beat-IsBeaten w s c =
    let fuel = fuel_for s.lease_duration_microseconds in
    let o = attempts (deadline s w) w fuel 0 s in
    guarded-IsBeaten w s s.failure (renewed_by w o) refl (λ h.
      elim (attempts-IsTried (deadline s w) w fuel 0 s) [
        | inl e ↦ absurd (lease-ends w s c e)
        | inr k ↦ tried-IsBeaten w s o h (lease-ends w s c) k
      ])
