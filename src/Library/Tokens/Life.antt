-- ===== src/Library/Tokens/Life.antt =====
-- Over any calls the token table stays valid, and a token keeps its object and never goes back.
use h2hdb_ingest.Prelude.{
  ℕ, ◌≡◌, true, false, ◌&&◌, none, some, List, [], ◌∷◌, arith, refl, Bool-cases, Option-cases, inl,
  inr, ◌⊎◌, ◌==◌, subst,
}
use h2hdb_ingest.Library.Tables.{Identity, Artifact, same_key}
use h2hdb_ingest.Library.State.{Token, writing, installed}
use h2hdb_ingest.Library.Cleanup.{clear_token, is_row}
use h2hdb_ingest.Library.Install.{Staged}
use h2hdb_ingest.Library.Publish.{is_authority, terminalize_stage}
use h2hdb_ingest.Library.Protection.{
  Request, find_token, is_active, is_stage_leaf, is_row_of, new_row, slot_taken, insert_token,
  mark_staged,
}
use h2hdb_ingest.Library.Withdrawing.{tombstone, mark_released}
use h2hdb_ingest.Library.Tokens.{
  TokenStep, unchanged, inserted, entombed, completed, withdrawn, cleared, find_token-token,
}
use h2hdb_ingest.Library.Tokens.Shape.{
  AreValid, AreShaped, is_shaped, Later-trans, Swap, insert-AreValid, find_token-insert,
}
use h2hdb_ingest.Library.Tokens.Replace.{
  Replaced, here, there, Replaced-AreValid, Replaced-find, HasLater, update_token-Replaced,
}

pub clear-Replaced : (a : Token) (ts us : List Token) → clear_token a ts ≡ some us → Replaced ts us
unfolding clear_token
clear-Replaced a [] us h = cc
clear-Replaced a (t ∷ ts) us h = elim (Bool-cases (is_row a t)) [
  | inl r ↦
      let same : us ≡ record t { staging_leaf = none; identity = none } ∷ ts = ground arith in
      rw same (here t (record t { staging_leaf = none; identity = none }) ts (ground arith))
  | inr r ↦ elim (Option-cases (clear_token a ts)) [
    | inl n ↦ absurd (ground arith)
    | inr (vs, n) ↦
        let same : us ≡ t ∷ vs = ground arith in rw same (there t ts vs (clear-Replaced a ts vs n))
  ]
]

pub terminalize_stage-Replaced :
    (token : ℕ) (a : Artifact) (st : Staged) (ts us : List Token)
    → terminalize_stage token a st ts ≡ some us
    → Replaced ts us
unfolding terminalize_stage
terminalize_stage-Replaced token a st [] us h = cc
terminalize_stage-Replaced token a st (t ∷ ts) us h =
    elim (Bool-cases (is_authority token a st t)) [
      | inl r ↦
          let same : us
              ≡ record t { state = installed; staging_leaf = none; identity = none } ∷ ts =
            ground arith in
          rw same (here t _ ts (ground arith))
      | inr r ↦ elim (Option-cases (terminalize_stage token a st ts)) [
        | inl n ↦ absurd (ground arith)
        | inr (vs, n) ↦
            let same : us ≡ t ∷ vs = ground arith in
            rw same (there t ts vs (terminalize_stage-Replaced token a st ts vs n))
      ]
    ]

shaped_found :
    (n : ℕ) (t : Token) (ts : List Token)
    → AreShaped ts
    → find_token n ts ≡ some t
    → is_shaped t ≡ true
unfolding find_token
shaped_found n t [] h f = cc
shaped_found n t (x ∷ xs) h f = ground (arith, shaped_found n t xs h.1)

mark_released-Swap : (t : Token) → is_shaped t ≡ true → Swap t (mark_released t)
mark_released-Swap t h = ground arith

mark_staged-Swap :
    (i : Identity) (t : Token)
    → t.state ≡ writing
    → is_stage_leaf t.token t.key t.staging_leaf ≡ true
    → Swap t (mark_staged i t)
mark_staged-Swap i t w l = ground arith

-- a valid table in which the row of a token is one later than `t`
pub record Lives (n : ℕ) (t : Token) (ts : List Token) : Type 0 where
  pub valid : AreValid ts
  pub later : HasLater t (find_token n ts)

HasLater-trans :
    (n : ℕ) (t : Token) (ts us : List Token)
    → Replaced ts us
    → HasLater t (find_token n ts)
    → HasLater t (find_token n us)
HasLater-trans n t ts us r h = elim (Option-cases (find_token n ts)) [
  | inl e ↦ absurd (ground arith)
  | inr (x, e) ↦
      let k = Replaced-find n x ts us r e in
      elim (Option-cases (find_token n us)) [
        | inl f ↦ absurd (ground arith)
        | inr (u, f) ↦ ground (arith, Later-trans t x u)
      ]
]

pub Replaced-Lives :
    (n : ℕ) (t : Token) (ts us : List Token) → Replaced ts us → Lives n t ts → Lives n t us
Replaced-Lives n t ts us r h = record {
  valid = Replaced-AreValid ts us r h.valid;
  later = HasLater-trans n t ts us r h.later;
}

completed-Swap :
    (r : Request) (i : Identity) (t : Token) (ts : List Token)
    → find_token r.token ts ≡ some t
    → t.state ≡ writing
    → is_stage_leaf r.token r.key t.staging_leaf ≡ true
    → is_row_of r t ≡ true
    → Swap t (mark_staged i t)
unfolding same_key
completed-Swap r i t ts f w l o =
    let e = find_token-token r.token ts t f in
    let k : is_stage_leaf t.token t.key t.staging_leaf ≡ true = ground arith in
    mark_staged-Swap i t w k

-- a step that inserts no row
replaces :
    (ts us : List Token) (s : TokenStep ts us)
    → AreValid ts
    → ((t : Token) × (find_token t.token ts ≡ none)
        × (us ≡ insert_token t ts)
        × (is_shaped t ≡ true)
        × ((is_active t.state && slot_taken t.key ts) ≡ false))
      ⊎ (us ≡ ts)
      ⊎ Replaced ts us
replaces ts _ unchanged h = inr (inl refl)
replaces ts _ (inserted r n f) h = inl (new_row r, n, refl, ground arith, ground arith)
replaces ts _ (entombed r n) h = inl (tombstone r, n, refl, refl, refl)
replaces ts _ (completed r i t f w l o) h = inr (
    inr (
      update_token-Replaced r.token (mark_staged i) t ts h.distinct f
        (completed-Swap r i t ts f w l o)))
replaces ts _ (withdrawn n t f) h = inr (
    inr (
      update_token-Replaced n mark_released t ts h.distinct f
        (mark_released-Swap t (shaped_found n t ts h.shaped f))))
replaces ts us (cleared a _ e) h = inr (inr (clear-Replaced a ts us e))

pub TokenStep-AreValid : (ts us : List Token) → TokenStep ts us → AreValid ts → AreValid us
TokenStep-AreValid ts us s h = elim (replaces ts us s h) [
  | inl (t, n, e, sh, a) ↦ rw e (insert-AreValid t ts sh n a h)
  | inr (inl e) ↦ rw e h
  | inr (inr r) ↦ Replaced-AreValid ts us r h
]

insert-HasLater :
    (n : ℕ) (t x : Token) (ts : List Token)
    → find_token x.token ts ≡ none
    → HasLater t (find_token n ts)
    → HasLater t (find_token n (insert_token x ts))
insert-HasLater n t x ts f h =
    let e = find_token-insert n x ts f in
    elim (Bool-cases (x.token == n)) [
      | inl a ↦
          let same : x.token ≡ n = ground arith in
          let none_found = subst (λ m. find_token m ts ≡ none) same f in absurd (ground arith)
      | inr a ↦ rw (e, a) h
    ]

pub TokenStep-Lives :
    (n : ℕ) (t : Token) (ts us : List Token) → TokenStep ts us → Lives n t ts → Lives n t us
TokenStep-Lives n t ts us s h = record {
  valid = TokenStep-AreValid ts us s h.valid;
  later = elim (replaces ts us s h.valid) [
    | inl (x, f, e, _, _) ↦ rw e (insert-HasLater n t x ts f h.later)
    | inr (inl e) ↦ rw e h.later
    | inr (inr r) ↦ HasLater-trans n t ts us r h.later
  ];
}
