-- ===== src/Library/Stored.antt =====
-- The token table over any calls, and what `protect` and `release` promise when they return.
pub mod Table
pub mod Answers
pub mod Releases
use h2hdb_ingest.Prelude.{ℕ, ◌≡◌, some, List, arith, ◌==◌}
use h2hdb_ingest.Library.State.{Token, CursorCodec}
use h2hdb_ingest.Library.Protection.{find_token}
use h2hdb_ingest.Library.Calls.{Call, run, run-IsPreserved}
use h2hdb_ingest.Library.Revisions.{fresh}
use h2hdb_ingest.Library.Tokens.Shape.{AreValid, Later-refl}
use h2hdb_ingest.Library.Tokens.Replace.{HasLater}
use h2hdb_ingest.Library.Tokens.Life.{Lives}
use Table.{AreValid-preserved, Lives-preserved}

-- After any calls on a fresh library, with other callers committing between the transactions of
-- `protect` and `release`, the token table is valid: every token has one row, every row has the
-- columns that its state allows, and at most one row under a storage path is WRITING or STAGED.
pub run-AreValid : (codec : CursorCodec) (cs : List Call) → AreValid (run codec cs fresh).tokens
run-AreValid codec cs = run-IsPreserved codec (AreValid-preserved codec) cs fresh (ground arith)

-- Once a token has a row, that row is there after any further calls: for the same storage path,
-- digest and size, and in a state that is not earlier, so a released token stays released.
pub run-HasLater :
    (codec : CursorCodec) (before_calls calls : List Call) (n : ℕ) (t : Token)
    → find_token n (run codec before_calls fresh).tokens ≡ some t
    → HasLater t (find_token n (run codec calls (run codec before_calls fresh)).tokens)
run-HasLater codec before_calls calls n t f =
    let s = run codec before_calls fresh in
    let start : Lives n t s.tokens = record {
      valid = run-AreValid codec before_calls;
      later = rw f (Later-refl t);
    } in
    (run-IsPreserved codec (Lives-preserved codec n t) calls s start).later
