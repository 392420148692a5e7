-- ===== src/Recovery/Account.antt =====
-- No failure is lost from the account, and a failure that goes on is reported at intervals.
use h2hdb_ingest.Prelude.{
  ℕ, ◌≡◌, ◌<◌, ◌++◌, Option, none, ◌≤◌, ◌+◌, true, false, some, List, [], ◌∷◌, arith, refl,
  Bool-cases, inl, inr, length, same, is_some, Option-cases, ◌∙◌, ◌⊎◌, ◌==◌, ap,
}
use h2hdb_ingest.Recovery.{
  Failure, Line, RecoveryLog, new, reset, is_repeat, repeated, reported, line_of, log_failure,
  recovered, log_failures,
}

abbrev total_repeats : List Line → ℕ
total_repeats [] = 0
total_repeats (x ∷ xs) = x.suppressed_repeats + total_repeats xs

-- the lines and the log after some failures, against the log before them
record IsCounted (n : ℕ) (l : RecoveryLog) (ls : List Line) (l' : RecoveryLog) : Type 0 where
  lines_counted : length ls + l'.suppressed_total ≡ n + l.suppressed_total
  repeats_counted :
      total_repeats ls + l'.suppressed_since_report + l.suppressed_total
      ≡ l.suppressed_since_report + l'.suppressed_total
  interval_kept : l'.interval_seconds ≡ l.interval_seconds

log_failures-IsCounted :
    (fs : List Failure) (l : RecoveryLog)
    → IsCounted (length fs) l (log_failures fs l).0 (log_failures fs l).1
unfolding log_failures log_failure
log_failures-IsCounted [] l = record {
  lines_counted = refl;
  repeats_counted = omega arith;
  interval_kept = refl;
}
log_failures-IsCounted (f ∷ fs) l =
    let h = log_failures-IsCounted fs (log_failure f l).1 in
    elim (Bool-cases (is_repeat f l)) [
      | inl e ↦ record {
        lines_counted = ground (arith, h.lines_counted, e);
        repeats_counted = ground (arith, h.repeats_counted, e);
        interval_kept = ground (arith, h.interval_kept, e);
      }
      | inr e ↦ record {
        lines_counted = ground (arith, h.lines_counted, e);
        repeats_counted = ground (arith, h.repeats_counted, e);
        interval_kept = ground (arith, h.interval_kept, e);
      }
    ]

log_failures-signature :
    (fs : List Failure) (l : RecoveryLog)
    → is_some l.signature ≡ true
    → is_some (log_failures fs l).1.signature ≡ true
unfolding log_failures log_failure
log_failures-signature [] l h = h
log_failures-signature (f ∷ fs) l h = elim (Bool-cases (is_repeat f l)) [
  | inl e ↦ log_failures-signature fs (log_failure f l).1 (ground (arith, e, h))
  | inr e ↦ log_failures-signature fs (log_failure f l).1 (ground (arith, e))
]

recovered-reset :
    (l : RecoveryLog)
    → is_some l.signature ≡ true
    → recovered l ≡ (some l.suppressed_total, new l.interval_seconds)
unfolding recovered reset
recovered-reset l h = elim (Option-cases l.signature) [
  | inl e ↦ absurd (ground (arith, h))
  | inr (s, e) ↦ ground (arith, e)
]

first-signature :
    (interval : ℕ) (f : Failure) (fs : List Failure)
    → is_some (log_failures (f ∷ fs) (new interval)).1.signature ≡ true
unfolding log_failures log_failure
first-signature interval f fs = log_failures-signature fs (reported f (new interval)) refl

-- a recovery after some lines: it reports the failures that have no line, and forgets them
abbrev pub IsAccounted : ℕ → ℕ → List Line × RecoveryLog → Type 0
IsAccounted interval failures (ls, l) =
    (m : ℕ) × (recovered l ≡ (some m, new interval)) × (length ls + m ≡ failures)

-- Every failure is accounted for: after one or more failures with no recovery between them, the
-- recovery reports a number of suppressed repeats that makes, with the lines, the number of the
-- failures; and the log is then as it was at the start.
pub log_failures-IsAccounted :
    (interval : ℕ) (f : Failure) (fs : List Failure)
    → IsAccounted interval (length (f ∷ fs)) (log_failures (f ∷ fs) (new interval))
log_failures-IsAccounted interval f fs =
    let h = log_failures-IsCounted (f ∷ fs) (new interval) in
    let l = (log_failures (f ∷ fs) (new interval)).1 in
    let r = recovered-reset l (first-signature interval f fs) in
    (
      l.suppressed_total,
      r ∙ ap (λ i. (some l.suppressed_total, new i)) h.interval_kept,
      ground (arith, h.lines_counted),
    )

-- two lines in a row are of different failures, or the interval apart
abbrev pub AreSpaced : ℕ → List Line → Type 0
AreSpaced interval [] = Unit
AreSpaced interval (x ∷ []) = Unit
AreSpaced interval (x ∷ y ∷ ls) =
    ((x.signature == y.signature ≡ false) ⊎ (x.reported_at + interval ≤ y.reported_at))
    × AreSpaced interval (y ∷ ls)

-- the first line against the last one before it
abbrev IsLater : RecoveryLog → List Line → Type 0
IsLater l [] = Unit
IsLater l (y ∷ ls) =
    (same l.signature (some y.signature) ≡ false)
    ⊎ (l.last_reported_at + l.interval_seconds ≤ y.reported_at)

record IsSpaced (l : RecoveryLog) (ls : List Line) : Type 0 where
  later : IsLater l ls
  spaced : AreSpaced l.interval_seconds ls

reported_later :
    (f : Failure) (l : RecoveryLog)
    → is_repeat f l ≡ false
    → (same l.signature (some f.signature) ≡ false)
      ⊎ (l.last_reported_at + l.interval_seconds ≤ f.now)
reported_later f l e = elim (Bool-cases (same l.signature (some f.signature))) [
  | inr s ↦ inl s
  | inl s ↦ inr (ground (arith, e, s))
]

repeated-IsSpaced : (l : RecoveryLog) (ls : List Line) → IsSpaced (repeated l) ls → IsSpaced l ls
repeated-IsSpaced l [] h = record { later = tt; spaced = tt }
repeated-IsSpaced l (y ∷ ls) h = record { later = h.later; spaced = h.spaced }

reported-IsSpaced :
    (f : Failure) (l : RecoveryLog) (ls : List Line)
    → is_repeat f l ≡ false
    → IsSpaced (reported f l) ls
    → IsSpaced l (line_of f l ∷ ls)
reported-IsSpaced f l [] e h = record { later = reported_later f l e; spaced = tt }
reported-IsSpaced f l (y ∷ ls) e h = record {
  later = reported_later f l e;
  spaced = (h.later, h.spaced);
}

log_failures-IsSpaced : (fs : List Failure) (l : RecoveryLog) → IsSpaced l (log_failures fs l).0
unfolding log_failures log_failure
log_failures-IsSpaced [] l = record { later = tt; spaced = tt }
log_failures-IsSpaced (f ∷ fs) l = elim (Bool-cases (is_repeat f l)) [
  | inl e ↦
      rw e (
        repeated-IsSpaced l (log_failures fs (repeated l)).0
          (log_failures-IsSpaced fs (repeated l)))
  | inr e ↦ rw e (
      reported-IsSpaced f l (log_failures fs (reported f l)).0 e
        (log_failures-IsSpaced fs (reported f l)))
]

-- the last line, or none
abbrev pub last_line : Option Line → List Line → Option Line
last_line o [] = o
last_line o (x ∷ ls) = last_line (some x) ls

-- the log remembers the last line
abbrev signature_in : Option Line → Option ℕ
signature_in none = none
signature_in (some x) = some x.signature

record IsOf (l : RecoveryLog) (o : Option Line) : Type 0 where
  signature_of : l.signature ≡ signature_in o
  reported_of : (x : Line) → o ≡ some x → l.last_reported_at ≡ x.reported_at

reported-IsOf : (f : Failure) (l : RecoveryLog) → IsOf (reported f l) (some (line_of f l))
reported-IsOf f l = record { signature_of = refl; reported_of = λ x k. ground (arith, k) }

-- The line is about the failure, which came less than an interval after it, or made the line.
abbrev pub IsCoveredBy : ℕ → Failure → Option Line → Type 0
IsCoveredBy interval f none = ⊥
IsCoveredBy interval f (some x) =
    (x.signature ≡ f.signature) × ((x.reported_at ≡ f.now) ⊎ (f.now < x.reported_at + interval))

repeat-IsCoveredBy :
    (f : Failure) (l : RecoveryLog) (o : Option Line)
    → IsOf l o
    → is_repeat f l ≡ true
    → IsCoveredBy l.interval_seconds f o
repeat-IsCoveredBy f l none h e = let s = h.signature_of in absurd (ground (arith, s, e))
repeat-IsCoveredBy f l (some x) h e =
    let s = h.signature_of in
    let r = h.reported_of x refl in (ground (arith, s, e), inr (ground (arith, s, r, e)))

log_failures-IsCoveredBy :
    (fs : List Failure) (f : Failure) (l : RecoveryLog) (o : Option Line)
    → IsOf l o
    → IsCoveredBy l.interval_seconds f (last_line o (log_failures (fs ++ (f ∷ [])) l).0)
unfolding log_failures log_failure
log_failures-IsCoveredBy [] f l o h = elim (Bool-cases (is_repeat f l)) [
  | inl e ↦ rw e (repeat-IsCoveredBy f l o h e)
  | inr e ↦ rw e (refl, inl refl)
]
log_failures-IsCoveredBy (g ∷ fs) f l o h = elim (Bool-cases (is_repeat g l)) [
  | inl e ↦
      let k : IsOf (repeated l) o = record {
        signature_of = h.signature_of;
        reported_of = h.reported_of;
      } in
      rw e (log_failures-IsCoveredBy fs f (repeated l) o k)
  | inr e ↦
      let k = reported-IsOf g l in
      rw e (log_failures-IsCoveredBy fs f (reported g l) (some (line_of g l)) k)
]

new-IsOf : (interval : ℕ) → IsOf (new interval) none
new-IsOf interval = record { signature_of = refl; reported_of = λ x k. absurd (ground arith) }

-- After one or more failures with no recovery between them: two lines in a row are of different
-- failures or at least the interval apart, and the last line is about the last failure and was
-- reported at that failure or less than the interval before it.
pub log_failures-AreSpaced :
    (interval : ℕ) (fs : List Failure) (f : Failure)
    → let lines = (log_failures (fs ++ (f ∷ [])) (new interval)).0 in
      AreSpaced interval lines × IsCoveredBy interval f (last_line none lines)
log_failures-AreSpaced interval fs f = (
  (log_failures-IsSpaced (fs ++ (f ∷ [])) (new interval)).spaced,
  log_failures-IsCoveredBy fs f (new interval) none (new-IsOf interval),
)
