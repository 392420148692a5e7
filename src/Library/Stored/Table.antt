-- ===== src/Library/Stored/Table.antt =====
-- An invariant of the token table is one of the journal.
use h2hdb_ingest.Prelude.{
  ℕ, ◌≡◌, Option, none, some, List, [], ◌∷◌, arith, ok, Option-cases, inl, inr, ◌⊎◌,
}
use h2hdb_ingest.Library.Tables.{Cursor, find_pending, PendingRemoval}
use h2hdb_ingest.Library.State.{Token, Journal, CursorCodec}
use h2hdb_ingest.Library.Cleanup.{purge}
use h2hdb_ingest.Library.Spool.{Item, append_item, append_items, append_page, seal_journal}
use h2hdb_ingest.Library.Activation.{open_pending, complete_journal}
use h2hdb_ingest.Library.Install.{Install, Installed, reserve_install}
use h2hdb_ingest.Library.Publish.{terminalize_install, terminalize_stage, stage_tokens}
use h2hdb_ingest.Library.Removal.{
  plan_removals, select_removals, reserve_removals, terminalize_removal,
}
use h2hdb_ingest.Library.Reconcile.{start_activating, become_ready}
use h2hdb_ingest.Library.Inversion.{
  Result-cases, publish_page-writes, remove_page-writes, reserve_installs-reads,
  reserve_install-writes, terminalize_removal-writes, reserve_each-induction,
  terminalize_installs-induction, terminalize_removals-induction,
}
use h2hdb_ingest.Library.Coherence.Entries.{append_item-inserts}
use h2hdb_ingest.Library.Preserved.{IsPreserved}
use h2hdb_ingest.Library.Tokens.{TokenStep}
use h2hdb_ingest.Library.Tokens.Shape.{AreValid}
use h2hdb_ingest.Library.Tokens.Replace.{Replaced, Replaced-AreValid}
use h2hdb_ingest.Library.Tokens.Life.{
  Lives, TokenStep-AreValid, TokenStep-Lives, Replaced-Lives, terminalize_stage-Replaced,
}

append_items-tokens :
    (target : ℕ) (is : List Item) (j j' : Journal)
    → append_items target is j ≡ ok j'
    → j'.tokens ≡ j.tokens
unfolding append_items
append_items-tokens target [] j j' e = ground arith
append_items-tokens target (i ∷ is) j j' e = elim (Result-cases (append_item target i j)) [
  | inr (y, t) ↦ absurd (ground arith)
  | inl (k, t) ↦
      let (_, _, _, _, _, w) = append_item-inserts target i j k t in
      ground (arith, append_items-tokens target is k j' (ground arith))
]

append_page-tokens :
    (codec : CursorCodec) (target : ℕ) (page : List Item) (j j' : Journal)
    → append_page codec target page j ≡ ok j'
    → j'.tokens ≡ j.tokens
unfolding append_page
append_page-tokens codec target [] j j' e = elim (Result-cases (append_items target [] j)) [
  | inr (y, t) ↦ absurd (ground arith)
  | inl (k, t) ↦ ground (arith, append_items-tokens target [] j k t)
]
append_page-tokens codec target (i ∷ is) j j' e =
    elim (Result-cases (append_items target (i ∷ is) j)) [
      | inr (y, t) ↦ absurd (ground arith)
      | inl (k, t) ↦ ground (arith, append_items-tokens target (i ∷ is) j k t)
    ]

stage_tokens-Replaced :
    (p : Install) (token : Option ℕ) (ts us : List Token)
    → stage_tokens p token ts ≡ ok us
    → (us ≡ ts) ⊎ Replaced ts us
stage_tokens-Replaced p none ts us h = inl (ground arith)
stage_tokens-Replaced p (some token) ts us h = elim (Option-cases p.staged) [
  | inl n ↦ absurd (ground arith)
  | inr (st, n) ↦ elim (Option-cases (terminalize_stage token p.artifact st ts)) [
    | inl e ↦ absurd (ground arith)
    | inr (vs, e) ↦
        let same : us ≡ vs = ground arith in
        rw same (inr (terminalize_stage-Replaced token p.artifact st ts vs e))
  ]
]

-- The stage of an install is terminalized, or there is none.
terminalize_install-tokens :
    (o : Installed) (j j' : Journal)
    → terminalize_install o j ≡ ok j'
    → (j'.tokens ≡ j.tokens) ⊎ Replaced j.tokens j'.tokens
unfolding terminalize_install
terminalize_install-tokens o j j' h =
    elim (Option-cases (find_pending o.plan.revision o.plan.at j.pending_entries)) [
      | inl n ↦ absurd (ground arith)
      | inr (e, f) ↦ elim (Result-cases (stage_tokens o.plan o.terminal_token j.tokens)) [
        | inr (x, t) ↦ absurd (ground arith)
        | inl (ts, t) ↦
            let same : j'.tokens ≡ ts = ground arith in
            rw same (stage_tokens-Replaced o.plan o.terminal_token j.tokens ts t)
      ]
    ]

module _ (codec : CursorCodec) (Q : List Token → Type 0)
    (step : (ts us : List Token) → TokenStep ts us → Q ts → Q us)
    (replace : (ts us : List Token) → Replaced ts us → Q ts → Q us) where
  abbrev OfTokens : Journal → Type 0
  OfTokens j = Q j.tokens

  kept : (j j' : Journal) → j'.tokens ≡ j.tokens → Q j.tokens → Q j'.tokens
  kept j j' e h = rw e h

  install-kept :
      (o : Installed) (j j' : Journal) → OfTokens j → terminalize_install o j ≡ ok j' → OfTokens j'
  install-kept o j j' h e = elim (terminalize_install-tokens o j j' e) [
    | inl s ↦ kept j j' s h
    | inr r ↦ replace j.tokens j'.tokens r h
  ]

  reserve-kept :
      (r q : ℕ) (c : Cursor) (j j' : Journal) (plan : Install)
      → OfTokens j
      → reserve_install r q c j ≡ ok (j', plan)
      → OfTokens j'
  reserve-kept r q c j j' plan h e =
      let (_, _, w) = reserve_install-writes r q c j j' plan e in kept j j' (ground arith) h

  removal-kept :
      (r : ℕ) (p : PendingRemoval) (j j' : Journal)
      → OfTokens j
      → terminalize_removal r p j ≡ ok j'
      → OfTokens j'
  removal-kept r p j j' h e =
      let (_, _, w) = terminalize_removal-writes r p j j' e in kept j j' (ground arith) h

  pub tokens-IsPreserved : IsPreserved codec (λ j. Q j.tokens)
  unfolding open_pending seal_journal start_activating plan_removals select_removals
      reserve_removals become_ready complete_journal purge
  tokens-IsPreserved = record {
    at_open = λ t q j j' o n h e. kept j j' (ground arith) h;
    at_append = λ t page j j' i h e. kept j j' (append_page-tokens codec t page j j' e) h;
    at_seal = λ t j j' h e. kept j j' (ground arith) h;
    at_start = λ t j j' h e. kept j j' (ground arith) h;
    at_reserve = λ t q n j j' plans h e.
        reserve_each-induction OfTokens t q (reserve-kept t q) _ j j' plans h
          (reserve_installs-reads codec t q n j j' plans e).1;
    at_publish = λ t q o os j j' a h e.
        let (k, w, _, s) = publish_page-writes codec t q o os j j' e in
        kept k j' (ground arith)
          (terminalize_installs-induction OfTokens install-kept (o ∷ os) j k h w);
    at_plan = λ t q n j j' h e. kept j j' (ground arith) h;
    at_authorize = λ t q n j j' plans h e. kept j j' (ground arith) h;
    at_remove = λ t q p ps j j' h e.
        let (k, d, w, _, s) = remove_page-writes codec t q p ps j j' e in
        kept k j' (ground arith)
          (terminalize_removals-induction OfTokens t (removal-kept t) (p ∷ ps) j k h w);
    at_ready = λ t q j j' h e. kept j j' (ground arith) h;
    at_complete = λ t q j j' h e. kept j j' (ground arith) h;
    at_tokens = λ ts j s h. step j.tokens ts s h;
    at_purge = λ j j' n h e. kept j j' (ground arith) h;
  }

pub AreValid-preserved : (codec : CursorCodec) → IsPreserved codec (λ j. AreValid j.tokens)
AreValid-preserved codec = tokens-IsPreserved codec AreValid TokenStep-AreValid Replaced-AreValid

pub Lives-preserved :
    (codec : CursorCodec) (n : ℕ) (t : Token) → IsPreserved codec (λ j. Lives n t j.tokens)
Lives-preserved codec n t =
    tokens-IsPreserved codec (Lives n t) (TokenStep-Lives n t) (Replaced-Lives n t)
