-- ===== src/Reobservation/Cover.antt =====
-- No failed source is forgotten, and the set of locators stays bounded.
use h2hdb_ingest.Prelude.{
  ◌≡◌, ◌≤◌, Bool, true, false, ◌||◌, not, List, [], ◌∷◌, length, arith, refl, Bool-cases, inl, inr,
}
use h2hdb_ingest.Prelude.Texts.{same_text-eq}
use h2hdb_ingest.Reobservation.{
  Locator, same_locator, holds, maximum_locators, SourceReobservation, refresh_all,
  reuse_sealed_observations, record_locator, Context, no_context, failed_at, raises, record_failure,
  record_failures,
}

-- the source is observed again
abbrev pub is_covered : Locator → SourceReobservation → Bool
is_covered l o = not (reuse_sealed_observations o) || holds l o.locators

-- one of the failures is at this locator
abbrev pub is_failed : Locator → List Context → Bool
is_failed l [] = false
is_failed l (no_context ∷ cs) = is_failed l cs
is_failed l (raises ∷ cs) = is_failed l cs
is_failed l (failed_at k ∷ cs) = same_locator l k || is_failed l cs

same_locator-eq : (a b : Locator) → same_locator a b ≡ true → a ≡ b
unfolding same_locator
same_locator-eq [] [] h = refl
same_locator-eq [] (b ∷ vs) h = cc
same_locator-eq (a ∷ us) [] h = cc
same_locator-eq (a ∷ us) (b ∷ vs) h = ground (arith, same_text-eq a b, same_locator-eq us vs)

record_failure-covers :
    (l : Locator) (c : Context) (o : SourceReobservation)
    → is_covered l o ≡ true
    → is_covered l (record_failure c o) ≡ true
unfolding record_failure record_locator reuse_sealed_observations holds
record_failure-covers l no_context o h = h
record_failure-covers l raises o h = refl
record_failure-covers l (failed_at k) o h = ground arith

record_failures-covers :
    (l : Locator) (cs : List Context) (o : SourceReobservation)
    → is_covered l o ≡ true
    → is_covered l (record_failures cs o) ≡ true
unfolding record_failures
record_failures-covers l [] o h = h
record_failures-covers l (c ∷ cs) o h =
    record_failures-covers l cs (record_failure c o) (record_failure-covers l c o h)

record_locator-covers :
    (l k : Locator) (o : SourceReobservation)
    → same_locator l k ≡ true
    → is_covered l (record_locator k o) ≡ true
unfolding record_locator reuse_sealed_observations holds
record_locator-covers l k o h = ground (arith, same_locator-eq l k)

-- However many failures are recorded in a row, and whatever was recorded before, a source that is
-- among them is observed again: its locator is kept, or every sealed observation is refreshed.
pub record_failures-failed :
    (l : Locator) (cs : List Context) (o : SourceReobservation)
    → is_failed l cs ≡ true
    → is_covered l (record_failures cs o) ≡ true
unfolding record_failures record_failure
record_failures-failed l [] o h = cc
record_failures-failed l (no_context ∷ cs) o h = record_failures-failed l cs o h
record_failures-failed l (raises ∷ cs) o h = record_failures-failed l cs refresh_all h
record_failures-failed l (failed_at k ∷ cs) o h = elim (Bool-cases (same_locator l k)) [
  | inl s ↦ record_failures-covers l cs (record_locator k o) (record_locator-covers l k o s)
  | inr s ↦ record_failures-failed l cs (record_locator k o) (ground arith)
]

record_failure-bounded :
    (c : Context) (o : SourceReobservation)
    → length o.locators ≤ maximum_locators
    → length (record_failure c o).locators ≤ maximum_locators
unfolding record_failure record_locator
record_failure-bounded no_context o h = h
record_failure-bounded raises o h = ground arith
record_failure-bounded (failed_at l) o h = ground arith

-- Where at most 128 locators are kept, at most 128 are kept after any failures.
pub record_failures-bounded :
    (cs : List Context) (o : SourceReobservation)
    → length o.locators ≤ maximum_locators
    → length (record_failures cs o).locators ≤ maximum_locators
unfolding record_failures
record_failures-bounded [] o h = h
record_failures-bounded (c ∷ cs) o h =
    record_failures-bounded cs (record_failure c o) (record_failure-bounded c o h)
