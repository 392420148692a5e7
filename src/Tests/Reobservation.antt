-- ===== src/Tests/Reobservation.antt =====
-- The theorems about reobservation, applied to two failures.
use h2hdb_ingest.Prelude.{◌≡◌, ◌≤◌, true, List, [], ◌∷◌, length, refl, arith}
use h2hdb_ingest.Prelude.Texts.{same_text}
use h2hdb_ingest.Reobservation.{
  Locator, Context, failed_at, no_context, empty, maximum_locators, record_failures, same_locator,
}
use h2hdb_ingest.Reobservation.Cover.{
  is_covered, is_failed, record_failures-failed, record_failures-bounded,
}

abbrev gallery : Locator
gallery = (103 ∷ 49 ∷ []) ∷ []

abbrev failures : List Context
failures = failed_at gallery ∷ no_context ∷ failed_at [] ∷ []

gallery_failed : is_failed gallery failures ≡ true
unfolding same_text same_locator
gallery_failed = refl

record_failures-failed_example : is_covered gallery (record_failures failures empty) ≡ true
record_failures-failed_example = record_failures-failed gallery failures empty gallery_failed

record_failures-bounded_example :
    length (record_failures failures empty).locators ≤ maximum_locators
record_failures-bounded_example = record_failures-bounded failures empty (omega arith)
