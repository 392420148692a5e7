-- ===== src/Library/Preserved/Staging.antt =====
-- `protect` and `release` keep what the steps of the token table keep.
use h2hdb_ingest.Prelude.{
  ℕ, Bool, Option, none, some, List, [], ◌∷◌, Result, ok, err, inl, inr, refl, Bool-cases, is_some,
  ◌&&◌,
}
use h2hdb_ingest.Library.Tables.{StorageKey, Identity}
use h2hdb_ingest.Library.State.{
  Error, Token, Journal, Bytes, transaction, transaction_with, CursorCodec,
}
use h2hdb_ingest.Library.State.Keeps.{
  Keeps, Keeps-bind, Keeps-lift, Keeps-pure, Keeps-quiet, Keeps-transaction, Keeps-transaction_with,
}
use h2hdb_ingest.Library.Protection.{
  Request, Opening, already_released, already_installed, already_staged, to_write, Finish, kept,
  discarded, open_stage, finish_stage,
}
use h2hdb_ingest.Library.Withdrawing.{Release, insert_tombstone, release_row}
use h2hdb_ingest.Library.Staging.{
  TokenCall, opens, finishes, inserts, releases, clears, commit_call, commit_calls, meanwhile,
  StageDisk, recover, finished, stage_written, protect_rest, protect_request, protect, clear_stage,
  release_token, select, release, clear_released,
}
use h2hdb_ingest.Library.Tokens.{
  open_stage-Stepped, finish_stage-Stepped, insert_tombstone-Stepped, release_row-Stepped,
  clear_released-Stepped,
}
use h2hdb_ingest.Library.Inversion.{Result-cases}
use h2hdb_ingest.Library.Preserved.{IsPreserved, Stepped-IsPreserved}

module _ (codec : CursorCodec) {P : Journal → Type 0} (h : IsPreserved codec P) where
  commit_call-Keeps : (c : TokenCall) (j : Journal) → P j → P (commit_call c j)
  unfolding commit_call
  commit_call-Keeps (opens r) j p = elim (Result-cases (open_stage r j)) [
    | inl ((j', o), e) ↦ rw e (Stepped-IsPreserved codec h j j' (open_stage-Stepped r j j' o e) p)
    | inr (x, e) ↦ rw e p
  ]
  commit_call-Keeps (finishes r i) j p = elim (Result-cases (finish_stage r i j)) [
    | inl ((j', o), e) ↦
        rw e (Stepped-IsPreserved codec h j j' (finish_stage-Stepped r i j j' o e) p)
    | inr (x, e) ↦ rw e p
  ]
  commit_call-Keeps (inserts r) j p = elim (Result-cases (insert_tombstone r j)) [
    | inl (j', e) ↦ rw e (Stepped-IsPreserved codec h j j' (insert_tombstone-Stepped r j j' e) p)
    | inr (x, e) ↦ rw e p
  ]
  commit_call-Keeps (releases r) j p = elim (Result-cases (release_row r j)) [
    | inl ((j', w), e) ↦ rw e (Stepped-IsPreserved codec h j j' (release_row-Stepped r j j' w e) p)
    | inr (x, e) ↦ rw e p
  ]
  commit_call-Keeps (clears t) j p = elim (Result-cases (clear_released t j)) [
    | inl (j', e) ↦ rw e (Stepped-IsPreserved codec h j j' (clear_released-Stepped t j j' e) p)
    | inr (x, e) ↦ rw e p
  ]

  commit_calls-Keeps : (cs : List TokenCall) (j : Journal) → P j → P (commit_calls cs j)
  unfolding commit_calls
  commit_calls-Keeps [] j p = p
  commit_calls-Keeps (c ∷ cs) j p =
      commit_calls-Keeps cs (commit_call c j) (commit_call-Keeps c j p)

  meanwhile-Keeps : (cs : List TokenCall) → Keeps P (meanwhile cs)
  unfolding meanwhile
  meanwhile-Keeps cs = record { at = λ s p. commit_calls-Keeps cs s.journal p }

  open_stage-Keeps : (r : Request) → Keeps P (transaction_with (open_stage r))
  open_stage-Keeps r =
      Keeps-transaction_with
        λ j j' o p e. Stepped-IsPreserved codec h j j' (open_stage-Stepped r j j' o e) p

  finish_stage-Keeps : (r : Request) (i : Identity) → Keeps P (transaction_with (finish_stage r i))
  finish_stage-Keeps r i =
      Keeps-transaction_with
        λ j j' o p e. Stepped-IsPreserved codec h j j' (finish_stage-Stepped r i j j' o e) p

  insert_tombstone-Keeps : (r : Release) → Keeps P (transaction (insert_tombstone r))
  insert_tombstone-Keeps r =
      Keeps-transaction
        λ j j' p e. Stepped-IsPreserved codec h j j' (insert_tombstone-Stepped r j j' e) p

  release_row-Keeps : (r : Release) → Keeps P (transaction_with (release_row r))
  release_row-Keeps r =
      Keeps-transaction_with
        λ j j' o p e. Stepped-IsPreserved codec h j j' (release_row-Stepped r j j' o e) p

  clear_released-Keeps : (t : Token) → Keeps P (transaction (clear_released t))
  clear_released-Keeps t =
      Keeps-transaction
        λ j j' p e. Stepped-IsPreserved codec h j j' (clear_released-Stepped t j j' e) p

  recover-Keeps : (disk : StageDisk) (r : Request) (e : Error) → Keeps P (recover disk r e)
  recover-Keeps disk r e = Keeps-quiet (λ s. unfold recover in refl)

  select-Keeps : (disk : StageDisk) (r : Release) → Keeps P (select disk codec r)
  select-Keeps disk r = Keeps-quiet (λ s. unfold select in refl)

  ruleset token_actions = (
    Keeps-bind, Keeps-lift, Keeps-pure, meanwhile-Keeps, open_stage-Keeps, finish_stage-Keeps,
    insert_tombstone-Keeps, release_row-Keeps, clear_released-Keeps, recover-Keeps, select-Keeps,
  )

  module _ (disk : StageDisk) where
    finished-Keeps : (r : Request) (f : Finish) → Keeps P (finished disk r f)
    unfolding finished
    finished-Keeps r kept = Keeps-pure _
    finished-Keeps r (discarded i) = search token_actions depth 8

    written-Keeps : (r : Request) (o : Result Error Identity) → Keeps P (stage_written disk r o)
    unfolding stage_written
    written-Keeps r (err e) = recover-Keeps disk r e
    written-Keeps r (ok i) = search (token_actions, finished-Keeps) depth 8

    rest-Keeps : (r : Request) (o : Opening) → Keeps P (protect_rest disk r o)
    unfolding protect_rest
    rest-Keeps r already_released = Keeps-pure _
    rest-Keeps r (already_installed i) = search token_actions depth 8
    rest-Keeps r (already_staged t) = search token_actions depth 8
    rest-Keeps r to_write = search (token_actions, written-Keeps) depth 8

    request-Keeps : (r : Request) → Keeps P (protect_request disk r)
    unfolding protect_request
    request-Keeps r = search (token_actions, rest-Keeps) depth 8

    pub protect-Keeps :
        (key : Option StorageKey) (digest : Bytes) (size : ℕ) (modified : Option ℕ) (token : Bytes)
        → Keeps P (protect disk key digest size modified token)
    unfolding protect
    protect-Keeps key digest size modified token = search (token_actions, request-Keeps) depth 8

    clear_stage-Keeps : (t : Token) (b : Bool) → Keeps P (clear_stage disk t b)
    unfolding clear_stage
    clear_stage-Keeps t b = elim (Bool-cases (b && is_some t.staging_leaf)) [
      | inl e ↦ rw e (clear_released-Keeps t)
      | inr e ↦ rw e (Keeps-pure _)
    ]

    release_token-Keeps : (r : Release) (o : Option Token) → Keeps P (release_token disk r o)
    unfolding release_token
    release_token-Keeps r none = search token_actions depth 12
    release_token-Keeps r (some t) = search (token_actions, clear_stage-Keeps) depth 12

    pub release-Keeps :
        (key : Option StorageKey) (digest : Bytes) (size : ℕ) (token : Bytes)
        → Keeps P (release disk codec key digest size token)
    unfolding release
    release-Keeps key digest size token = search (token_actions, release_token-Keeps) depth 12
