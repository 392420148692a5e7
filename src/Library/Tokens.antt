-- ===== src/Library/Tokens.antt =====
-- The steps of the token table: what each transaction of `protect`, `release` and
-- `maintain_cleanup` may do to it.
pub mod Shape
pub mod Replace
pub mod Life
use h2hdb_ingest.Prelude.{
  ℕ, ◌≡◌, Bool, true, false, not, ◌&&◌, Option, none, some, List, [], ◌∷◌, Result, ok, err, arith,
  refl, sym, subst, Option-cases, Bool-cases, inl, inr, ◌⊎◌, is_some,
}
use h2hdb_ingest.Library.Tables.{Identity}
use h2hdb_ingest.Library.State.{
  Error, TokenState, writing, staged, installed, released, Token, Journal, CursorCodec,
}
use h2hdb_ingest.Library.Cleanup.{clear_token, clear_journal}
use h2hdb_ingest.Library.Protection.{
  Request, Opening, Finish, find_token, is_row_of, is_stage_leaf, slot_taken, insert_token, new_row,
  open_row, open_stage, update_token, mark_staged, finish_stage,
}
use h2hdb_ingest.Library.Withdrawing.{
  Release, tombstone, insert_tombstone, is_partial, mark_released, Withdrawal, release_row,
}
use h2hdb_ingest.Library.Staging.{clear_released}
use h2hdb_ingest.Library.Inversion.{Result-cases}

pub data TokenStep (ts : List Token) : List Token → Type 0 where
  unchanged : TokenStep ts ts
  inserted :
      (r : Request)
      → find_token r.token ts ≡ none
      → slot_taken r.key ts ≡ false
      → TokenStep ts (insert_token (new_row r) ts)
  entombed :
      (r : Release) → find_token r.token ts ≡ none → TokenStep ts (insert_token (tombstone r) ts)
  completed :
      (r : Request) (i : Identity) (t : Token)
      → find_token r.token ts ≡ some t
      → t.state ≡ writing
      → is_stage_leaf r.token r.key t.staging_leaf ≡ true
      → is_row_of r t ≡ true
      → TokenStep ts (update_token r.token (mark_staged i) ts)
  withdrawn :
      (token : ℕ) (t : Token)
      → find_token token ts ≡ some t
      → TokenStep ts (update_token token mark_released ts)
  cleared : (a : Token) (us : List Token) → clear_token a ts ≡ some us → TokenStep ts us

-- the journal after a transaction on the tokens: only they have moved, by a step
pub record Stepped (j j' : Journal) : Type 0 where
  pub tokens : List Token
  pub step : TokenStep j.tokens tokens
  pub frame : j' ≡ record j { tokens = tokens }

pub Stepped-refl : (j : Journal) → Stepped j j
Stepped-refl j = record { tokens = j.tokens; step = unchanged; frame = refl }

pub open_stage-Stepped :
    (r : Request) (j j' : Journal) (o : Opening) → open_stage r j ≡ ok (j', o) → Stepped j j'
unfolding open_stage
open_stage-Stepped r j j' o h = elim (Option-cases (find_token r.token j.tokens)) [
  | inr (t, f) ↦ elim (Result-cases (open_row r j.current_entries t)) [
    | inl (x, e) ↦ let same : j ≡ j' = ground arith in subst (Stepped j) same (Stepped-refl j)
    | inr (x, e) ↦ absurd (ground arith)
  ]
  | inl n ↦ elim (Bool-cases (slot_taken r.key j.tokens)) [
    | inl s ↦ absurd (ground arith)
    | inr s ↦ record {
      tokens = insert_token (new_row r) j.tokens;
      step = inserted r n s;
      frame = ground arith;
    }
  ]
]

pub finish_stage-Stepped :
    (r : Request) (i : Identity) (j j' : Journal) (f : Finish)
    → finish_stage r i j ≡ ok (j', f)
    → Stepped j j'
unfolding finish_stage
finish_stage-Stepped r i j j' f h = elim (Option-cases (find_token r.token j.tokens)) [
  | inl n ↦ absurd (ground arith)
  | inr (t, e) ↦
      let outcome : (j' ≡ j)
          ⊎ ((t.state ≡ writing)
              × (is_stage_leaf r.token r.key t.staging_leaf ≡ true)
              × (is_row_of r t ≡ true)
              × (j' ≡ record j { tokens = update_token r.token (mark_staged i) j.tokens })) =
        ground arith in
      elim outcome [
        | inl same ↦ subst (Stepped j) (sym same) (Stepped-refl j)
        | inr (w, l, o, same) ↦ record {
          tokens = update_token r.token (mark_staged i) j.tokens;
          step = completed r i t e w l o;
          frame = same;
        }
      ]
]

pub insert_tombstone-Stepped :
    (r : Release) (j j' : Journal) → insert_tombstone r j ≡ ok j' → Stepped j j'
unfolding insert_tombstone
insert_tombstone-Stepped r j j' h = elim (Option-cases (find_token r.token j.tokens)) [
  | inr (t, e) ↦ absurd (ground arith)
  | inl n ↦ record {
    tokens = insert_token (tombstone r) j.tokens;
    step = entombed r n;
    frame = ground arith;
  }
]

pub find_token-token :
    (token : ℕ) (ts : List Token) (t : Token) → find_token token ts ≡ some t → t.token ≡ token
unfolding find_token
find_token-token token [] t h = cc
find_token-token token (x ∷ xs) t h = ground (arith, find_token-token token xs t)

pub release_row-Stepped :
    (r : Release) (j j' : Journal) (w : Withdrawal) → release_row r j ≡ ok (j', w) → Stepped j j'
unfolding release_row
release_row-Stepped r j j' w h = elim (Option-cases (find_token r.token j.tokens)) [
  | inl n ↦ absurd (ground arith)
  | inr (t, e) ↦ elim (Result-cases (is_partial r.token r.key t.staging_leaf t.identity)) [
    | inr (x, p) ↦ absurd (ground arith)
    | inl (partial, p) ↦
        let outcome : (j' ≡ j)
            ⊎ (j' ≡ record j { tokens = update_token t.token mark_released j.tokens }) =
          ground arith in
        let named = find_token-token r.token j.tokens t e in
        elim outcome [
          | inl same ↦ subst (Stepped j) (sym same) (Stepped-refl j)
          | inr same ↦ record {
            tokens = update_token t.token mark_released j.tokens;
            step = withdrawn t.token t (subst (λ n. find_token n j.tokens ≡ some t) (sym named) e);
            frame = same;
          }
        ]
  ]
]

clear-Stepped :
    (a : Token) (j j' : Journal) (us : List Token)
    → clear_token a j.tokens ≡ some us
    → j' ≡ record j { tokens = us }
    → Stepped j j'
clear-Stepped a j j' us c e = record { tokens = us; step = cleared a us c; frame = e }

pub clear_journal-Stepped : (a : Token) (j j' : Journal) → clear_journal a j ≡ ok j' → Stepped j j'
unfolding clear_journal
clear_journal-Stepped a j j' h = elim (Option-cases (clear_token a j.tokens)) [
  | inl n ↦ absurd (ground arith)
  | inr (us, n) ↦ clear-Stepped a j j' us n (ground arith)
]

pub clear_released-Stepped :
    (a : Token) (j j' : Journal) → clear_released a j ≡ ok j' → Stepped j j'
clear_released-Stepped a j j' h = elim (Option-cases (clear_token a j.tokens)) [
  | inl n ↦ absurd (ground arith)
  | inr (us, n) ↦ clear-Stepped a j j' us n (ground arith)
]
