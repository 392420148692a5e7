-- ===== src/Library/Reconciled/Work.antt =====
-- The installs and the removals of a reconciliation keep the rows exact.
use h2hdb_ingest.Prelude.{
  ℕ, ◌≡◌, true, some, List, [], ◌∷◌, arith, refl, sym, subst, ok, take, Bool-cases, inl, inr,
}
use h2hdb_ingest.Library.Tables.{Cursor, PendingRemoval, removals_of}
use h2hdb_ingest.Library.State.{Journal, CursorCodec, journal_state, is_activating}
use h2hdb_ingest.Library.Install.{
  Install, Installed, reserve_install, reserve_installs, mark_started,
}
use h2hdb_ingest.Library.Publish.{
  mark_activated, publish_page, terminalize_install, terminalize_installs,
}
use h2hdb_ingest.Library.Removal.{
  plan_removals, select_removals, reserve_removals, remove_page, terminalize_removal,
}
use h2hdb_ingest.Library.Preserved.{AreFor}
use h2hdb_ingest.Library.Inversion.{
  Result-cases, publish_page-writes, remove_page-writes, reserve_installs-reads,
  reserve_install-writes, terminalize_install-writes, terminalize_removal-writes,
  reserve_each-induction, terminalize_removals-induction,
}
use h2hdb_ingest.Library.Coherence.Frames.{
  reserve_each-Frame, terminalize_installs-Frame, terminalize_removals-Frame,
}
use h2hdb_ingest.Library.Reconciled.Rows.{
  AllStale-find, AllStale-delete, AllStale-start_each, AllStale-select,
}
use h2hdb_ingest.Library.Reconciled.Writes.{
  AreInstalled-start, AreInstalled-publish, AreInstalled-delete, AllStale-update,
}
use h2hdb_ingest.Library.Reconciled.Rowset.{
  AreRows, IsReconciled, IsReconciled-AreRows, AreRows-IsReconciled,
}

module _ (codec : CursorCodec) where
  pub reserve_install-rows :
      (r q : ℕ) (c : Cursor) (j j' : Journal) (plan : Install)
      → AreRows r j
      → reserve_install r q c j ≡ ok (j', plan)
      → AreRows r j'
  reserve_install-rows r q c j j' plan h e =
      let (x, _, w) = reserve_install-writes r q c j j' plan e in
      elim (Bool-cases x.operation_started) [
        | inl t ↦ let same : j ≡ j' = ground arith in subst (AreRows r) same h
        | inr t ↦
            let i = AreInstalled-start r x.at j.pending_entries j.current_entries h.installed in
            let s =
              AllStale-update (some r) r x.at mark_started j.pending_entries j.pending_removals
                (λ y. (refl, refl)) h.removals in
            ground (arith, i, s, h.pending)
      ]

  pub reserve-IsReconciled :
      (target receipt limit : ℕ) (j j' : Journal) (plans : List Install)
      → IsReconciled j
      → reserve_installs codec target receipt limit j ≡ ok (j', plans)
      → IsReconciled j'
  reserve-IsReconciled target receipt limit j j' plans k e =
      let (a, w) = reserve_installs-reads codec target receipt limit j j' plans e in
      let f = reserve_each-Frame target receipt _ j j' plans w in
      AreRows-IsReconciled target j' (ground (arith, f.phase)) (
        reserve_each-induction (AreRows target) target receipt (reserve_install-rows target receipt)
          _ j j' plans (IsReconciled-AreRows target receipt j a k) w)

  pub terminalize_install-rows :
      (r : ℕ) (o : Installed) (j j' : Journal)
      → o.plan.revision ≡ r
      → AreRows r j
      → terminalize_install o j ≡ ok j'
      → AreRows r j'
  terminalize_install-rows r o j j' n h e =
      let (x, ts, f, d, w) = terminalize_install-writes o j j' e in
      let i =
        AreInstalled-publish r o x j.pending_entries j.current_entries n (ground arith) d
          h.installed in
      let s =
        AllStale-update (some r) r o.plan.at (mark_activated o.identity) j.pending_entries
          j.pending_removals (λ y. (refl, refl)) h.removals in
      ground (arith, i, s, h.pending)

  pub terminalize_installs-rows :
      (r : ℕ) (os : List Installed) (j j' : Journal)
      → AreFor r os
      → AreRows r j
      → terminalize_installs os j ≡ ok j'
      → AreRows r j'
  unfolding terminalize_installs
  terminalize_installs-rows r [] j j' a h e =
      let same : j ≡ j' = ground arith in subst (AreRows r) same h
  terminalize_installs-rows r (o ∷ os) j j' a h e = elim (Result-cases (terminalize_install o j)) [
    | inr (y, s) ↦ absurd (ground arith)
    | inl (k, s) ↦
        terminalize_installs-rows r os k j' a.1 (terminalize_install-rows r o j k a.0 h s)
          (ground arith)
  ]

  -- the cursor is no part of the rows
  pub with_cursor-IsReconciled :
      (r b : ℕ) (j : Journal)
      → is_activating j.phase ≡ true
      → AreRows r j
      → IsReconciled (record j { last_cursor = some b })
  with_cursor-IsReconciled r b j a k = ground (arith, k.pending)

  pub publish-IsReconciled :
      (target receipt : ℕ) (o : Installed) (os : List Installed) (j j' : Journal)
      → AreFor target (o ∷ os)
      → IsReconciled j
      → publish_page codec target receipt o os j ≡ ok j'
      → IsReconciled j'
  publish-IsReconciled target receipt o os j j' n h e =
      let (k, t, a, w) = publish_page-writes codec target receipt o os j j' e in
      let f = terminalize_installs-Frame (o ∷ os) j k t in
      subst IsReconciled (sym w) (
        with_cursor-IsReconciled target _ k (ground (arith, f.phase)) (
          terminalize_installs-rows target (o ∷ os) j k n
            (IsReconciled-AreRows target receipt j a h) t))

  pub plan-IsReconciled :
      (target receipt limit : ℕ) (j j' : Journal)
      → IsReconciled j
      → plan_removals codec target receipt limit j ≡ ok j'
      → IsReconciled j'
  unfolding plan_removals select_removals
  plan-IsReconciled target receipt limit j j' h e = elim (Result-cases (journal_state codec j)) [
    | inr (y, s) ↦ absurd (ground arith)
    | inl (_, s) ↦
        let k = IsReconciled-AreRows target receipt j (ground arith) h in
        let more =
          AllStale-select target limit j.pending_entries j.current_entries j.pending_removals
            k.removals in
        ground (arith, more, k.pending)
  ]

  pub authorize-IsReconciled :
      (target receipt limit : ℕ) (j j' : Journal) (plans : List PendingRemoval)
      → IsReconciled j
      → reserve_removals codec target receipt limit j ≡ ok (j', plans)
      → IsReconciled j'
  unfolding reserve_removals
  authorize-IsReconciled target receipt limit j j' plans h e =
      elim (Result-cases (journal_state codec j)) [
        | inr (y, s) ↦ absurd (ground arith)
        | inl (_, s) ↦
            let k = IsReconciled-AreRows target receipt j (ground arith) h in
            let started =
              AllStale-start_each target (some target) j.pending_entries
                (take limit (removals_of target j.pending_removals)) j.pending_removals
                k.removals in
            ground (arith, started, k.pending)
      ]

  pub terminalize_removal-rows :
      (r : ℕ) (p : PendingRemoval) (j j' : Journal)
      → AreRows r j
      → terminalize_removal r p j ≡ ok j'
      → AreRows r j'
  terminalize_removal-rows r p j j' h e =
      let (x, f, w) = terminalize_removal-writes r p j j' e in
      let n = AllStale-find r p.at (some r) j.pending_entries j.pending_removals x h.removals f in
      let i = AreInstalled-delete r p.at j.pending_entries j.current_entries n h.installed in
      let s = AllStale-delete r p.at (some r) j.pending_entries j.pending_removals h.removals in
      ground (arith, i, s, h.pending)

  pub remove-IsReconciled :
      (target receipt : ℕ) (p : PendingRemoval) (ps : List PendingRemoval) (j j' : Journal)
      → IsReconciled j
      → remove_page codec target receipt p ps j ≡ ok j'
      → IsReconciled j'
  remove-IsReconciled target receipt p ps j j' h e =
      let (k, c, t, a, w) = remove_page-writes codec target receipt p ps j j' e in
      let f = terminalize_removals-Frame target (p ∷ ps) j k t in
      subst IsReconciled (sym w) (
        with_cursor-IsReconciled target _ k (ground (arith, f.phase)) (
          terminalize_removals-induction (AreRows target) target (terminalize_removal-rows target)
            (p ∷ ps) j k (IsReconciled-AreRows target receipt j a h) t))
