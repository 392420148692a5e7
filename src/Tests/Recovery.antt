-- ===== src/Tests/Recovery.antt =====
-- Failures, of which the second repeats the first one.
use h2hdb_ingest.Prelude.{ℕ, List, [], ◌∷◌, ◌++◌, none, length}
use h2hdb_ingest.Recovery.{Failure, new, log_failures}
use h2hdb_ingest.Recovery.Account.{
  IsAccounted, log_failures-IsAccounted, AreSpaced, IsCoveredBy, last_line, log_failures-AreSpaced,
}

abbrev failure : ℕ → ℕ → Failure
failure signature now = record { signature = signature; now = now }

abbrev rest : List Failure
rest = failure 1 20 ∷ failure 1 90 ∷ []

log_failures-IsAccounted_example :
    IsAccounted 60 (length (failure 1 10 ∷ rest)) (log_failures (failure 1 10 ∷ rest) (new 60))
log_failures-IsAccounted_example = log_failures-IsAccounted 60 (failure 1 10) rest

log_failures-AreSpaced_example :
    let lines = (log_failures (rest ++ (failure 2 95 ∷ [])) (new 60)).0 in
    AreSpaced 60 lines × IsCoveredBy 60 (failure 2 95) (last_line none lines)
log_failures-AreSpaced_example = log_failures-AreSpaced 60 rest (failure 2 95)
