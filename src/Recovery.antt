-- ===== src/Recovery.antt =====
-- _log_recovery.py: one line for repeated failures of an operation, and one for its recovery. A
-- signature stands for the digest that identifies a failure; times are ticks of the clock.
pub mod Account
use h2hdb_ingest.Prelude.{
  ℕ, ◌+◌, Bool, true, false, ◌&&◌, Option, none, some, List, [], ◌∷◌, ltb, same, if◌then◌else◌,
}

-- what `log_failure` finds out of an error, and when
pub record Failure : Type 0 where
  pub signature : ℕ
  pub now : ℕ

-- the line of a failure and the line of a recovery, with their `suppressed_repeats`
pub record Line : Type 0 where
  pub signature : ℕ
  pub reported_at : ℕ
  pub suppressed_repeats : ℕ

pub record RecoveryLog : Type 0 where
  pub interval_seconds : ℕ
  pub signature : Option ℕ
  pub last_reported_at : ℕ
  pub suppressed_since_report : ℕ
  pub suppressed_total : ℕ

-- `__init__`
abbrev pub new : ℕ → RecoveryLog
new interval = record {
  interval_seconds = interval;
  signature = none;
  last_reported_at = 0;
  suppressed_since_report = 0;
  suppressed_total = 0;
}

unfoldable pub reset : RecoveryLog → RecoveryLog
reset l = record l {
  signature = none;
  last_reported_at = 0;
  suppressed_since_report = 0;
  suppressed_total = 0;
}

-- `signature == self._signature and now - self._last_reported_at < self._interval_seconds`
abbrev pub is_repeat : Failure → RecoveryLog → Bool
is_repeat f l =
    same l.signature (some f.signature) && ltb f.now (l.last_reported_at + l.interval_seconds)

abbrev pub repeated : RecoveryLog → RecoveryLog
repeated l = record l {
  suppressed_since_report = l.suppressed_since_report + 1;
  suppressed_total = l.suppressed_total + 1;
}

abbrev pub reported : Failure → RecoveryLog → RecoveryLog
reported f l = record l {
  signature = some f.signature;
  last_reported_at = f.now;
  suppressed_since_report = 0;
}

abbrev pub line_of : Failure → RecoveryLog → Line
line_of f l = record {
  signature = f.signature;
  reported_at = f.now;
  suppressed_repeats = l.suppressed_since_report;
}

unfoldable pub log_failure : Failure → RecoveryLog → Option Line × RecoveryLog
log_failure f l = if is_repeat f l then (none, repeated l) else (some (line_of f l), reported f l)

-- the `suppressed_repeats` of the recovery's line, if there is one
unfoldable pub recovered : RecoveryLog → Option ℕ × RecoveryLog
recovered l = elim l.signature [ none ↦ (none, l) | some s ↦ (some l.suppressed_total, reset l) ]

abbrev pub with_line : Option Line → List Line → List Line
with_line none ls = ls
with_line (some x) ls = x ∷ ls

-- failures in a row, with no recovery between them
unfoldable pub log_failures : List Failure → RecoveryLog → List Line × RecoveryLog
log_failures [] l = ([], l)
log_failures (f ∷ fs) l =
    let (line, l') = log_failure f l in
    let (ls, l'') = log_failures fs l' in (with_line line ls, l'')
