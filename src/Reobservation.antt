-- ===== src/Reobservation.antt =====
-- _source_retry.py: which sources are observed again after a failed publication.
pub mod Cover
use h2hdb_ingest.Prelude.{
  ℕ, Bool, true, false, not, ◌&&◌, ◌||◌, Option, none, some, List, [], ◌∷◌, length, ◌==◌,
  if◌then◌else◌,
}
use h2hdb_ingest.Prelude.Texts.{Text, same_text}

-- a tuple of strings
abbrev pub Locator : Type 0
Locator = List Text

unfoldable pub same_locator : Locator → Locator → Bool
same_locator [] [] = true
same_locator (a ∷ us) (b ∷ vs) = same_text a b && same_locator us vs
same_locator _ _ = false

unfoldable pub holds : Locator → List Locator → Bool
holds l [] = false
holds l (x ∷ xs) = same_locator l x || holds l xs

abbrev pub maximum_locators : ℕ
maximum_locators = 128

pub record SourceReobservation : Type 0 where
  pub locators : List Locator
  pub full_refresh : Bool

abbrev pub empty : SourceReobservation
empty = record { locators = []; full_refresh = false }

abbrev pub refresh_all : SourceReobservation
refresh_all = record { locators = []; full_refresh = true }

unfoldable pub reuse_sealed_observations : SourceReobservation → Bool
reuse_sealed_observations o = not o.full_refresh

-- `record`
unfoldable pub record_locator : Locator → SourceReobservation → SourceReobservation
record_locator l o =
    if o.full_refresh || holds l o.locators
    then o
    else if length o.locators == maximum_locators
    then refresh_all
    else record o { locators = l ∷ o.locators }

unfoldable pub clear : SourceReobservation → SourceReobservation
clear o = empty

-- what `get_artifact_failure_context` of the h2hdb package says of an error
pub data Context : Type 0 where
  no_context : Context
  failed_at : Locator → Context
  raises : Context

unfoldable pub record_failure : Context → SourceReobservation → SourceReobservation
record_failure no_context o = o
record_failure (failed_at l) o = record_locator l o
record_failure raises o = refresh_all

-- failures in a row
unfoldable pub record_failures : List Context → SourceReobservation → SourceReobservation
record_failures [] o = o
record_failures (c ∷ cs) o = record_failures cs (record_failure c o)
