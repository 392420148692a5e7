-- ===== src/Library/Stored/Releases.antt =====
-- A `release` that returns leaves the token released.
use h2hdb_ingest.Prelude.{
  ◌≡◌, Bool, ◌&&◌, Option, none, some, List, arith, refl, Result, ok, err, Option-cases, Bool-cases,
  inl, inr, is_some, ap,
}
use h2hdb_ingest.Library.Tables.{same_key}
use h2hdb_ingest.Library.State.{
  Error, Token, Journal, Library, lift, ◌>>=◌, transaction, transaction_with,
}
use h2hdb_ingest.Library.Cleanup.{clear_token}
use h2hdb_ingest.Library.Protection.{find_token, update_token}
use h2hdb_ingest.Library.Withdrawing.{
  Release, insert_tombstone, tombstone, release_row, Withdrawal, is_partial, mark_released,
}
use h2hdb_ingest.Library.Staging.{
  StageDisk, meanwhile, commit_calls, clear_stage, clear_released, release_token,
}
use h2hdb_ingest.Library.Inversion.{Result-cases}
use h2hdb_ingest.Library.Tokens.{find_token-token}
use h2hdb_ingest.Library.Tokens.Shape.{Later, find_token-insert}
use h2hdb_ingest.Library.Tokens.Replace.{Replaced, Replaced-find}
use h2hdb_ingest.Library.Tokens.Life.{clear-Replaced}
use h2hdb_ingest.Library.Stored.Answers.{IsReleased, find_token-update}

-- the token of the release is released for its object
abbrev IsDone : Release → List Token → Type 0
IsDone r ts = IsReleased r.key r.digest r.size_bytes (find_token r.token ts)

Replaced-IsDone : (r : Release) (ts us : List Token) → Replaced ts us → IsDone r ts → IsDone r us
Replaced-IsDone r ts us p h = elim (Option-cases (find_token r.token ts)) [
  | inl n ↦ absurd (ground arith)
  | inr (x, n) ↦
      let k = Replaced-find r.token x ts us p n in
      elim (Option-cases (find_token r.token us)) [
        | inl m ↦ absurd (ground arith)
        | inr (u, m) ↦
            let l : Later x u = ground arith in ground (arith, l.forward, l.key, l.digest)
      ]
]

insert_tombstone-IsDone :
    (r : Release) (j j' : Journal) → insert_tombstone r j ≡ ok j' → IsDone r j'.tokens
unfolding insert_tombstone same_key
insert_tombstone-IsDone r j j' h = elim (Option-cases (find_token r.token j.tokens)) [
  | inr (t, e) ↦ absurd (ground arith)
  | inl n ↦ let f = find_token-insert r.token (tombstone r) j.tokens n in ground arith
]

release_row-IsDone :
    (r : Release) (j j' : Journal) (w : Withdrawal)
    → release_row r j ≡ ok (j', w)
    → IsDone r j'.tokens
unfolding release_row
release_row-IsDone r j j' w h = elim (Option-cases (find_token r.token j.tokens)) [
  | inl n ↦ absurd (ground arith)
  | inr (t, e) ↦ elim (Result-cases (is_partial r.token r.key t.staging_leaf t.identity)) [
    | inr (x, p) ↦ absurd (ground arith)
    | inl (partial, p) ↦
        let named = find_token-token r.token j.tokens t e in
        let u = find_token-update r.token mark_released t j.tokens e refl in
        ground (arith, ap (λ n. update_token n mark_released j.tokens) named)
  ]
]

clear_released-IsDone :
    (r : Release) (t : Token) (j j' : Journal)
    → clear_released t j ≡ ok j'
    → IsDone r j.tokens
    → IsDone r j'.tokens
clear_released-IsDone r t j j' h d = elim (Option-cases (clear_token t j.tokens)) [
  | inl n ↦ absurd (ground arith)
  | inr (us, n) ↦
      let same : j'.tokens ≡ us = ground arith in
      rw same (Replaced-IsDone r j.tokens us (clear-Replaced t j.tokens us n) d)
]

-- an answer of `release` against the row
abbrev pub IsWithdrawn : Release → Result Error (Unit {0}) × Library → Type 0
IsWithdrawn r (ok u, s) = IsReleased r.key r.digest r.size_bytes (find_token r.token s.tokens)
IsWithdrawn r (err e, s) = Unit

clear_stage-IsWithdrawn :
    (disk : StageDisk) (r : Release) (t : Token) (b : Bool) (s : Library)
    → IsDone r s.tokens
    → IsWithdrawn r (clear_stage disk t b s)
unfolding clear_stage transaction
clear_stage-IsWithdrawn disk r t b s h = elim (Bool-cases (b && is_some t.staging_leaf)) [
  | inr e ↦ rw e h
  | inl e ↦ elim (Result-cases (clear_released t s.journal)) [
    | inr (_, c) ↦ rw (e, c) tt
    | inl (j', c) ↦ rw (e, c) (clear_released-IsDone r t s.journal j' c h)
  ]
]

released-IsWithdrawn :
    (disk : StageDisk) (r : Release) (w : Withdrawal) (s : Library)
    → IsDone r s.tokens
    → IsWithdrawn r
        ((lift (disk.remove r w.row) >>= λ _. clear_stage disk w.row w.newly_released) s)
unfolding ◌>>=◌
released-IsWithdrawn disk r w s h = elim (Result-cases (disk.remove r w.row)) [
  | inr (_, e) ↦ rw e tt
  | inl (_, e) ↦ rw e (clear_stage-IsWithdrawn disk r w.row w.newly_released s h)
]

row-IsWithdrawn :
    (disk : StageDisk) (r : Release) (s : Library)
    → IsWithdrawn r (
        (transaction_with (release_row r) >>= λ w.
        lift (disk.remove r w.row) >>= λ _. clear_stage disk w.row w.newly_released)
          s)
unfolding ◌>>=◌ transaction_with
row-IsWithdrawn disk r s = elim (Result-cases (release_row r s.journal)) [
  | inr (_, e) ↦ rw e tt
  | inl ((j', w), e) ↦ rw e (
      released-IsWithdrawn disk r w (record s { journal = j' })
        (release_row-IsDone r s.journal j' w e))
]

tombstone-IsWithdrawn :
    (r : Release) (s : Library) → IsWithdrawn r (transaction (insert_tombstone r) s)
unfolding transaction
tombstone-IsWithdrawn r s = elim (Result-cases (insert_tombstone r s.journal)) [
  | inr (_, e) ↦ rw e tt
  | inl (j', e) ↦ rw e (insert_tombstone-IsDone r s.journal j' e)
]

-- Whatever the disk does and whatever other callers commit in between, when `release` returns, the
-- token's row is for the object of the call and is RELEASED, whether there was a row before or not.
pub release_token-IsWithdrawn :
    (disk : StageDisk) (r : Release) (o : Option Token) (s : Library)
    → IsWithdrawn r (release_token disk r o s)
unfolding release_token ◌>>=◌ meanwhile
release_token-IsWithdrawn disk r none s = elim (Bool-cases (disk.has_stage r)) [
  | inl e ↦ rw e tt
  | inr e ↦ elim (Bool-cases (disk.has_temporary r)) [
    | inl f ↦ rw (e, f) tt
    | inr f ↦
        rw (e, f)
          (tombstone-IsWithdrawn r (record s { journal = commit_calls disk.others s.journal }))
  ]
]
release_token-IsWithdrawn disk r (some t) s =
    row-IsWithdrawn disk r (record s { journal = commit_calls disk.others s.journal })
