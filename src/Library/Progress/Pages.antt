-- ===== src/Library/Progress/Pages.antt =====
-- One page of a reconciliation leaves less work, or ends READY.
use h2hdb_ingest.Prelude.{
  ℕ, ◌≡◌, ◌≤◌, ◌<◌, Option, none, some, List, ◌∷◌, arith, ok, inl, inr, ◌⊎◌, take,
}
use h2hdb_ingest.Library.Tables.{PendingRemoval, unactivated}
use h2hdb_ingest.Library.State.{Journal, CursorCodec, ready, Checkpoint, ready_status, Status}
use h2hdb_ingest.Library.Install.{Install, Installed, reserve_installs}
use h2hdb_ingest.Library.Publish.{publish_page, terminalize_installs, terminalize_install}
use h2hdb_ingest.Library.Removal.{
  plan_removals, select_removals, reserve_removals, remove_page, terminalize_removals,
  terminalize_removal,
}
use h2hdb_ingest.Library.Reconcile.{start_activating, become_ready}
use h2hdb_ingest.Library.Inversion.{
  Result-cases, reserve_each-induction, terminalize_installs-induction,
  terminalize_removals-induction, publish_page-writes, remove_page-writes, reserve_installs-reads,
}
use h2hdb_ingest.Library.Progress.Counts.{
  work, reserve_install-work, terminalize_install-work, terminalize_removal-work,
}

abbrev pub AtMost : ℕ → Journal → Type 0
AtMost w j = work j ≤ w

-- a page that says that there is more to do, and leaves less
abbrev pub IsLess : ℕ → Checkpoint → Journal → Type 0
IsLess w c j = (c.status ≡ Status.reconcile) × (work j < w)

-- what a page leaves of `w`
abbrev pub IsAdvanced : ℕ → Checkpoint → Journal → Type 0
IsAdvanced w c j = ((c.status ≡ ready_status) × (j.phase ≡ ready)) ⊎ IsLess w c j

-- what a part of a page leaves, when it may have had nothing to do
abbrev pub Advanced : ℕ → Option Checkpoint → Journal → Type 0
Advanced w none j = AtMost w j
Advanced w (some c) j = IsLess w c j

pub start-work :
    (r w : ℕ) (j j' : Journal) → AtMost w j → start_activating r j ≡ ok j' → AtMost w j'
unfolding start_activating
start-work r w j j' h e = ground arith

module _ (codec : CursorCodec) (r q w : ℕ) where
  pub reserve-work :
      (limit : ℕ) (j j' : Journal) (plans : List Install)
      → AtMost w j
      → reserve_installs codec r q limit j ≡ ok (j', plans)
      → AtMost w j'
  reserve-work limit j j' plans h e =
      let (_, e') = reserve_installs-reads codec r q limit j j' plans e in
      reserve_each-induction (AtMost w) r q
        (λ c k k' p a f. omega (arith, a, reserve_install-work r q c k k' p f))
        (take limit (unactivated r j.pending_entries)) j j' plans h e'

  installs-work :
      (o : Installed) (os : List Installed) (j j' : Journal)
      → AtMost w j
      → terminalize_installs (o ∷ os) j ≡ ok j'
      → work j' < w
  unfolding terminalize_installs
  installs-work o os j j' h e = elim (Result-cases (terminalize_install o j)) [
    | inr (x, f) ↦ absurd (ground arith)
    | inl (k, f) ↦
        terminalize_installs-induction (λ i. work i < w)
          (λ p i i' a g. omega (arith, a, terminalize_install-work p i i' g)) os k j'
          (omega (arith, h, terminalize_install-work o j k f)) (ground arith)
  ]

  removals-work :
      (p : PendingRemoval) (ps : List PendingRemoval) (j j' : Journal)
      → AtMost w j
      → terminalize_removals r (p ∷ ps) j ≡ ok j'
      → work j' < w
  unfolding terminalize_removals
  removals-work p ps j j' h e = elim (Result-cases (terminalize_removal r p j)) [
    | inr (x, f) ↦ absurd (ground arith)
    | inl (k, f) ↦
        terminalize_removals-induction (λ i. work i < w) r
          (λ o i i' a g. omega (arith, a, terminalize_removal-work r o i i' g)) ps k j'
          (omega (arith, h, terminalize_removal-work r p j k f)) (ground arith)
  ]

  pub publish-work :
      (o : Installed) (os : List Installed) (j j' : Journal)
      → AtMost w j
      → publish_page codec r q o os j ≡ ok j'
      → work j' < w
  publish-work o os j j' h e =
      let (k, f, _, g) = publish_page-writes codec r q o os j j' e in
      let less = installs-work o os j k h f in ground (arith, less, g)

  pub remove-work :
      (p : PendingRemoval) (ps : List PendingRemoval) (j j' : Journal)
      → AtMost w j
      → remove_page codec r q p ps j ≡ ok j'
      → work j' < w
  remove-work p ps j j' h e =
      let (k, _, f, _, g) = remove_page-writes codec r q p ps j j' e in
      let less = removals-work p ps j k h f in ground (arith, less, g)

  pub plan-work :
      (limit : ℕ) (j j' : Journal)
      → AtMost w j
      → plan_removals codec r q limit j ≡ ok j'
      → AtMost w j'
  unfolding plan_removals select_removals
  plan-work limit j j' h e = ground arith

  pub authorize-work :
      (limit : ℕ) (j j' : Journal) (plans : List PendingRemoval)
      → AtMost w j
      → reserve_removals codec r q limit j ≡ ok (j', plans)
      → AtMost w j'
  unfolding reserve_removals
  authorize-work limit j j' plans h e = ground arith

  pub ready-phase :
      (j j' : Journal) → AtMost w j → become_ready codec r q j ≡ ok j' → j'.phase ≡ ready
  unfolding become_ready
  ready-phase j j' h e = ground arith
