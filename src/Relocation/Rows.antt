-- ===== src/Relocation/Rows.antt =====
-- The checks of `_resolve` (library_relocation.py) on the rows about a storage path, and on a token's
-- staged and temporary file.
use h2hdb_ingest.Prelude.{
  ℕ, Bool, true, false, not, ◌&&◌, ◌||◌, Option, none, some, Result, ltb, max, ◌==◌, is_some,
}
use h2hdb_ingest.Library.Tables.{
  rank, Kind, Identity, CurrentEntry, PendingEntry, PendingRemoval, same_cursor, same_object,
  same_identity,
}
use h2hdb_ingest.Library.State.{TokenState, writing, staged, installed, released, Leaf, Token}
use h2hdb_ingest.Library.Files.{File}
use h2hdb_ingest.Relocation.{Error, Observed, Group, matches, require, ◌>>=◌}

abbrev size_of_current : Option CurrentEntry → ℕ
size_of_current none = 0
size_of_current (some c) = c.artifact.size_bytes

abbrev size_of_pending : Option PendingEntry → ℕ
size_of_pending none = 0
size_of_pending (some p) = p.artifact.size_bytes

abbrev size_of_removal : Option PendingRemoval → ℕ
size_of_removal none = 0
size_of_removal (some r) = r.artifact.size_bytes

abbrev size_of_token : Option Token → ℕ
size_of_token none = 0
size_of_token (some t) = t.size_bytes

-- the largest size that a row names
abbrev pub maximum : Group → ℕ
maximum g =
    max (size_of_current g.current)
      (max (size_of_pending g.pending) (max (size_of_removal g.removal) (size_of_token g.token)))

abbrev is_sized : Bool → ℕ → Bool
is_sized present size = not present || ltb 0 size

-- every row names a size
abbrev are_sized : Group → Bool
are_sized g =
    is_sized (is_some g.current) (size_of_current g.current)
    && (is_sized (is_some g.pending) (size_of_pending g.pending)
        && (is_sized (is_some g.removal) (size_of_removal g.removal)
            && is_sized (is_some g.token) (size_of_token g.token)))

abbrev is_empty : Group → Bool
is_empty g =
    not (is_some g.current || (is_some g.pending || (is_some g.removal || is_some g.token)))

abbrev removal_agrees : Option PendingRemoval → Option CurrentEntry → Bool
removal_agrees none c = true
removal_agrees (some r) none = false
removal_agrees (some r) (some c) =
    same_cursor r.at c.at
    && (same_object r.artifact c.artifact && same_identity r.identity c.identity)

abbrev has_identity : Option Identity → Identity → Bool
has_identity none i = false
has_identity (some j) i = same_identity j i

abbrev activation_agrees : Option PendingEntry → Option CurrentEntry → Bool
activation_agrees none c = true
activation_agrees (some p) none = not p.activated
activation_agrees (some p) (some c) =
    not p.activated
    || (same_cursor p.at c.at
        && (p.artifact.digest == c.artifact.digest
            && (p.artifact.size_bytes == c.artifact.size_bytes
                && has_identity p.identity c.identity)))

-- the checks of the rows against each other
unfoldable pub check_rows : Group → Result Error (Unit {0})
check_rows g = do
  _ ← require (not (is_empty g)) Error.disappeared
  _ ← require (are_sized g) Error.invalid_content
  _ ← require (removal_agrees g.removal g.current) Error.removal_disagrees
  require (activation_agrees g.pending g.current) Error.activation_disagrees

abbrev pub has_leaf : Option Leaf → ℕ → Kind → Bool
has_leaf none token k = false
has_leaf (some l) token k = l.token == token && rank l.kind == rank k

abbrev is_writing : TokenState → Bool
is_writing writing = true
is_writing _ = false

abbrev pub is_staged : TokenState → Bool
is_staged staged = true
is_staged _ = false

abbrev pub is_released : TokenState → Bool
is_released released = true
is_released _ = false

abbrev pub is_installed : TokenState → Bool
is_installed installed = true
is_installed _ = false

abbrev pub is_partial : Token → Bool
is_partial t = (is_writing t.state || is_released t.state) && not (is_some t.identity)

abbrev exceeds : Option File → ℕ → Bool
exceeds none size = false
exceeds (some f) size = ltb size f.signature.size_bytes

-- the staged and the temporary file of a token
unfoldable pub check_token : Token → Option File → Option File → Result Error (Unit {0})
check_token t stage temporary = do
  _ ← require (not (is_some stage && is_some temporary)) Error.ambiguous_stage
  _ ← require (not (is_some stage) || matches stage t.digest t.size_bytes) Error.hash_mismatch
  _ ←
      require
        (not (is_some temporary)
          || (not (exceeds temporary t.size_bytes)
              && (is_partial t || matches temporary t.digest t.size_bytes)))
        Error.hash_mismatch
  _ ← require (not (is_writing t.state && is_some t.identity)) Error.unexpected_authority
  require (not (is_staged t.state && not (is_some t.identity))) Error.lacks_authority

-- a token with its two files
pub record Stage : Type 0 where
  pub token : Token
  pub stage : Observed
  pub temporary : Observed
