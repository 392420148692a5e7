-- ===== src/Library/Inversion.antt =====
-- What a transaction that returns has read and written, and induction over its rows.
use h2hdb_ingest.Prelude.{
  ℕ, ◌≡◌, true, not, some, List, [], ◌∷◌, arith, refl, Result, ok, err, Option-cases, inl, inr, ◌⊎◌,
  subst, take,
}
use h2hdb_ingest.Library.Tables.{
  Cursor, PendingEntry, PendingRemoval, find_pending, find_removal, unactivated, delete_current,
  delete_removal,
}
use h2hdb_ingest.Library.State.{Journal, Token, CursorCodec, journal_state}
use h2hdb_ingest.Library.Install.{
  Install, Installed, reserve_install, reserve_each, started_entries, is_reconciling,
  reserve_installs,
}
use h2hdb_ingest.Library.Publish.{
  terminalize_install, terminalize_installs, stage_tokens, is_reserved, published, publish_page,
  record_cursor, last_cursor_of,
}
use h2hdb_ingest.Library.Removal.{
  terminalize_removal, terminalize_removals, remove_page, last_removed,
}

pub Result-cases {ℓ κ} :
    {E : Type ℓ} {A : Type κ} (r : Result E A) → ((a : A) × (r ≡ ok a)) ⊎ ((e : E) × (r ≡ err e))
Result-cases (ok a) = inl (a, refl)
Result-cases (err e) = inr (e, refl)

pub reserve_install-writes :
    (r q : ℕ) (c : Cursor) (j j' : Journal) (plan : Install)
    → reserve_install r q c j ≡ ok (j', plan)
    → (e : PendingEntry) × (find_pending r c j.pending_entries ≡ some e)
      × (j' ≡ record j {
        pending_entries = started_entries r e.at (not e.operation_started) j.pending_entries;
      })
unfolding reserve_install
reserve_install-writes r q c j j' plan h =
    elim (Option-cases (find_pending r c j.pending_entries)) [
      | inl n ↦ absurd (ground arith)
      | inr (e, f) ↦ (e, f, ground arith)
    ]

pub terminalize_install-writes :
    (o : Installed) (j j' : Journal)
    → terminalize_install o j ≡ ok j'
    → (e : PendingEntry) × (ts : List Token) × (find_pending o.plan.revision o.plan.at
          j.pending_entries
        ≡ some e)
      × (is_reserved o.plan e ≡ true)
      × (j' ≡ published o ts j)
unfolding terminalize_install
terminalize_install-writes o j j' h =
    elim (Option-cases (find_pending o.plan.revision o.plan.at j.pending_entries)) [
      | inl n ↦ absurd (ground arith)
      | inr (e, f) ↦ elim (Result-cases (stage_tokens o.plan o.terminal_token j.tokens)) [
        | inl (ts, t) ↦ (e, ts, f, ground arith, ground arith)
        | inr (x, t) ↦ absurd (ground arith)
      ]
    ]

pub terminalize_removal-writes :
    (r : ℕ) (p : PendingRemoval) (j j' : Journal)
    → terminalize_removal r p j ≡ ok j'
    → (x : PendingRemoval) × (find_removal r p.at j.pending_removals ≡ some x)
      × (j' ≡ record j {
        pending_removals = delete_removal r p.at j.pending_removals;
        current_entries = delete_current p.at j.current_entries;
      })
unfolding terminalize_removal
terminalize_removal-writes r p j j' h =
    elim (Option-cases (find_removal r p.at j.pending_removals)) [
      | inl n ↦ absurd (ground arith)
      | inr (x, f) ↦ (x, f, ground arith)
    ]

module _ (P : Journal → Type 0) where
  module _ (r q : ℕ) where
    pub reserve_each-induction :
        ((c : Cursor) (j j' : Journal) (plan : Install)
          → P j
          → reserve_install r q c j ≡ ok (j', plan)
          → P j')
        → (es : List PendingEntry) (j j' : Journal) (plans : List Install) → P j
        → reserve_each r q es j ≡ ok (j', plans)
        → P j'
    unfolding reserve_each
    reserve_each-induction step [] j j' plans h e =
        let same : j ≡ j' = ground arith in subst P same h
    reserve_each-induction step (x ∷ xs) j j' plans h e =
        elim (Result-cases (reserve_install r q x.at j)) [
          | inr (y, s) ↦ absurd (ground arith)
          | inl ((k, plan), s) ↦ elim (Result-cases (reserve_each r q xs k)) [
            | inr (y, t) ↦ absurd (ground arith)
            | inl ((k', ps), t) ↦
                let same : k' ≡ j' = ground arith in
                subst P same (reserve_each-induction step xs k k' ps (step x.at j k plan h s) t)
          ]
        ]

  pub terminalize_installs-induction :
      ((o : Installed) (j j' : Journal) → P j → terminalize_install o j ≡ ok j' → P j')
      → (os : List Installed) (j j' : Journal) → P j
      → terminalize_installs os j ≡ ok j'
      → P j'
  unfolding terminalize_installs
  terminalize_installs-induction step [] j j' h e =
      let same : j ≡ j' = ground arith in subst P same h
  terminalize_installs-induction step (o ∷ os) j j' h e =
      elim (Result-cases (terminalize_install o j)) [
        | inr (y, s) ↦ absurd (ground arith)
        | inl (k, s) ↦ terminalize_installs-induction step os k j' (step o j k h s) (ground arith)
      ]

  pub terminalize_removals-induction :
      (r : ℕ)
      → ((p : PendingRemoval) (j j' : Journal) → P j → terminalize_removal r p j ≡ ok j' → P j')
      → (ps : List PendingRemoval) (j j' : Journal) → P j
      → terminalize_removals r ps j ≡ ok j'
      → P j'
  unfolding terminalize_removals
  terminalize_removals-induction r step [] j j' h e =
      let same : j ≡ j' = ground arith in subst P same h
  terminalize_removals-induction r step (p ∷ ps) j j' h e =
      elim (Result-cases (terminalize_removal r p j)) [
        | inr (y, s) ↦ absurd (ground arith)
        | inl (k, s) ↦ terminalize_removals-induction r step ps k j' (step p j k h s) (ground arith)
      ]

-- A page that is published: its rows, then its cursor.
pub publish_page-writes :
    (codec : CursorCodec) (r q : ℕ) (o : Installed) (os : List Installed) (j j' : Journal)
    → publish_page codec r q o os j ≡ ok j'
    → (k : Journal) × (terminalize_installs (o ∷ os) j ≡ ok k)
      × (is_reconciling r q j ≡ true)
      × (j' ≡ record k { last_cursor = some (codec.to_bytes (last_cursor_of o os)) })
unfolding publish_page record_cursor
publish_page-writes codec r q o os j j' e = elim (Result-cases (journal_state codec j)) [
  | inr (y, s) ↦ absurd (ground arith)
  | inl (_, s) ↦ elim (Result-cases (terminalize_installs (o ∷ os) j)) [
    | inr (y, t) ↦ absurd (ground arith)
    | inl (k, t) ↦ (k, t, ground arith, ground arith)
  ]
]

pub remove_page-writes :
    (codec : CursorCodec) (r q : ℕ) (p : PendingRemoval) (ps : List PendingRemoval) (j j' : Journal)
    → remove_page codec r q p ps j ≡ ok j'
    → (k : Journal) × (c : Cursor) × (terminalize_removals r (p ∷ ps) j ≡ ok k)
      × (is_reconciling r q j ≡ true)
      × (j' ≡ record k { last_cursor = some (codec.to_bytes c) })
unfolding remove_page record_cursor
remove_page-writes codec r q p ps j j' e = elim (Result-cases (journal_state codec j)) [
  | inr (y, s) ↦ absurd (ground arith)
  | inl (_, s) ↦ elim (Result-cases (terminalize_removals r (p ∷ ps) j)) [
    | inr (y, t) ↦ absurd (ground arith)
    | inl (k, t) ↦ (k, last_removed p ps, t, ground arith, ground arith)
  ]
]

pub reserve_installs-reads :
    (codec : CursorCodec) (r q limit : ℕ) (j j' : Journal) (plans : List Install)
    → reserve_installs codec r q limit j ≡ ok (j', plans)
    → (is_reconciling r q j ≡ true)
      × (reserve_each r q (take limit (unactivated r j.pending_entries)) j ≡ ok (j', plans))
unfolding reserve_installs
reserve_installs-reads codec r q limit j j' plans e = elim (Result-cases (journal_state codec j)) [
  | inr (y, s) ↦ absurd (ground arith)
  | inl (_, s) ↦ (ground arith, ground arith)
]
