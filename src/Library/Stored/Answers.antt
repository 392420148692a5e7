-- ===== src/Library/Stored/Answers.antt =====
-- What the answers of `protect` and `release` say of the token's row.
use h2hdb_ingest.Prelude.{
  ℕ, ◌≡◌, Bool, true, false, Option, none, some, List, [], ◌∷◌, arith, refl, Result, ok, err,
  Option-cases, inl, inr,
}
use h2hdb_ingest.Library.Tables.{Identity, StorageKey}
use h2hdb_ingest.Library.State.{
  Error, TokenState, staged, installed, Token, Journal, Library, ◌>>=◌, transaction_with,
}
use h2hdb_ingest.Library.Cleanup.{is_released}
use h2hdb_ingest.Library.Protection.{
  Request, Opening, already_released, already_installed, already_staged, to_write, Finish, kept,
  discarded, find_token, is_object_of, is_row_of, open_row, open_stage, finish_stage, update_token,
  mark_staged, find_installed,
}
use h2hdb_ingest.Library.Staging.{
  StageDisk, replay_result, recover, finished, stage_written, protect_rest, protect_request,
  meanwhile, commit_calls,
}
use h2hdb_ingest.Library.Inversion.{Result-cases}

abbrev pub is_held : TokenState → Bool
is_held staged = true
is_held installed = true
is_held _ = false

-- the token's row is for the request, and its bytes are staged or installed
abbrev pub IsHeld : Request → Option Token → Type 0
IsHeld r none = ⊥
IsHeld r (some t) = (is_row_of r t ≡ true) × (is_held t.state ≡ true)

-- the token's row is for the object, and released
abbrev pub IsReleased : StorageKey → ℕ → ℕ → Option Token → Type 0
IsReleased key digest size none = ⊥
IsReleased key digest size (some t) =
    (is_object_of key digest size t ≡ true) × (is_released t.state ≡ true)

-- the answer of `protect` against the row: stored, or not because it is released
abbrev pub IsAnswered : Request → Result Error Bool × Library → Type 0
IsAnswered r (ok true, s) = IsHeld r (find_token r.token s.tokens)
IsAnswered r (ok false, s) = IsReleased r.key r.digest r.size_bytes (find_token r.token s.tokens)
IsAnswered r (err e, s) = Unit

-- what each opening says of the row
abbrev Opened : Request → Opening → List Token → Type 0
Opened r already_released ts = IsReleased r.key r.digest r.size_bytes (find_token r.token ts)
Opened r (already_installed i) ts = IsHeld r (find_token r.token ts)
Opened r (already_staged t) ts = IsHeld r (find_token r.token ts)
Opened r to_write ts = Unit

open_row-Opened :
    (r : Request) (j : Journal) (t : Token) (o : Opening)
    → find_token r.token j.tokens ≡ some t
    → open_row r j.current_entries t ≡ ok o
    → Opened r o j.tokens
unfolding open_row
open_row-Opened r j t o f e = elim (Option-cases (find_installed r j.current_entries)) [
  | inl n ↦ ground arith
  | inr (i, n) ↦ ground arith
]

open_stage-Opened :
    (r : Request) (j j' : Journal) (o : Opening)
    → open_stage r j ≡ ok (j', o)
    → Opened r o j'.tokens
unfolding open_stage
open_stage-Opened r j j' o h = elim (Option-cases (find_token r.token j.tokens)) [
  | inl n ↦ let w : o ≡ to_write = ground arith in rw w tt
  | inr (t, f) ↦ elim (Result-cases (open_row r j.current_entries t)) [
    | inr (x, e) ↦ absurd (ground arith)
    | inl (x, e) ↦
        let same_journal : j' ≡ j = ground arith in
        let same_opening : o ≡ x = ground arith in
        rw (same_journal, same_opening) (open_row-Opened r j t x f e)
  ]
]

pub find_token-update :
    (n : ℕ) (f : Token → Token) (t : Token) (ts : List Token)
    → find_token n ts ≡ some t
    → (f t).token ≡ t.token
    → find_token n (update_token n f ts) ≡ some (f t)
unfolding find_token update_token
find_token-update n f t [] h k = cc
find_token-update n f t (x ∷ xs) h k = ground (arith, find_token-update n f t xs)

-- what the end of a write says of the row
abbrev Finished : Request → Finish → List Token → Type 0
Finished r kept ts = IsHeld r (find_token r.token ts)
Finished r (discarded i) ts = IsReleased r.key r.digest r.size_bytes (find_token r.token ts)

finish_stage-Finished :
    (r : Request) (i : Identity) (j j' : Journal) (f : Finish)
    → finish_stage r i j ≡ ok (j', f)
    → Finished r f j'.tokens
unfolding finish_stage
finish_stage-Finished r i j j' f h = elim (Option-cases (find_token r.token j.tokens)) [
  | inl n ↦ absurd (ground arith)
  | inr (t, e) ↦ let u = find_token-update r.token (mark_staged i) t j.tokens e refl in ground arith
]

module _ (disk : StageDisk) where
  recover-IsAnswered : (r : Request) (e : Error) (s : Library) → IsAnswered r (recover disk r e s)
  unfolding recover replay_result
  recover-IsAnswered r e s = elim (Option-cases (find_token r.token s.tokens)) [
    | inl n ↦ ground arith
    | inr (t, f) ↦ elim (Result-cases (disk.verify_current r)) [
      | inl (_, v) ↦ elim (Result-cases (disk.verify_stage r t)) [
        | inl (_, w) ↦ ground arith
        | inr (_, w) ↦ ground arith
      ]
      | inr (_, v) ↦ elim (Result-cases (disk.verify_stage r t)) [
        | inl (_, w) ↦ ground arith
        | inr (_, w) ↦ ground arith
      ]
    ]
  ]

  finished-IsAnswered :
      (r : Request) (f : Finish) (s : Library)
      → Finished r f s.tokens
      → IsAnswered r (finished disk r f s)
  unfolding finished ◌>>=◌
  finished-IsAnswered r kept s h = h
  finished-IsAnswered r (discarded i) s h = elim (Result-cases (disk.discard r i)) [
    | inl (_, e) ↦ rw e h
    | inr (_, e) ↦ rw e tt
  ]

  stage_written-IsAnswered :
      (r : Request) (o : Result Error Identity) (s : Library)
      → IsAnswered r (stage_written disk r o s)
  unfolding stage_written ◌>>=◌ transaction_with
  stage_written-IsAnswered r (err e) s = recover-IsAnswered r e s
  stage_written-IsAnswered r (ok i) s = elim (Result-cases (finish_stage r i s.journal)) [
    | inr (_, e) ↦ rw e tt
    | inl ((j', f), e) ↦ rw e (
        finished-IsAnswered r f (record s { journal = j' })
          (finish_stage-Finished r i s.journal j' f e))
  ]

  protect_rest-IsAnswered :
      (r : Request) (o : Opening) (s : Library)
      → Opened r o s.tokens
      → IsAnswered r (protect_rest disk r o s)
  unfolding protect_rest ◌>>=◌ meanwhile
  protect_rest-IsAnswered r already_released s h = h
  protect_rest-IsAnswered r (already_installed i) s h =
      elim (Result-cases (disk.require_current r.key r.size_bytes i)) [
        | inl (_, e) ↦ rw e h
        | inr (_, e) ↦ rw e tt
      ]
  protect_rest-IsAnswered r (already_staged t) s h = elim (Result-cases (disk.verify_stage r t)) [
    | inl (_, e) ↦ rw e h
    | inr (_, e) ↦ rw e tt
  ]
  protect_rest-IsAnswered r to_write s h =
      stage_written-IsAnswered r (disk.write_stage r)
        (record s { journal = commit_calls disk.others s.journal })

-- Whatever the disk does and whatever other callers commit while the bytes are written, when
-- `protect` answers that the object is stored, the token's row is for that very request and is
-- STAGED or INSTALLED; when it answers that it is not, the row is for the object and RELEASED.
pub protect_request-IsAnswered :
    (disk : StageDisk) (r : Request) (s : Library) → IsAnswered r (protect_request disk r s)
unfolding protect_request ◌>>=◌ transaction_with
protect_request-IsAnswered disk r s = elim (Result-cases (open_stage r s.journal)) [
  | inr (_, e) ↦ rw e tt
  | inl ((j', o), e) ↦ rw e (
      protect_rest-IsAnswered disk r o (record s { journal = j' })
        (open_stage-Opened r s.journal j' o e))
]
