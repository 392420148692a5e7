-- ===== src/Library/Reconciled/Rowset.antt =====
-- What is exact about the rows of the pending revision, at every stage of its activation.
use h2hdb_ingest.Prelude.{ℕ, ◌≡◌, true, false, Option, none, some, [], arith}
use h2hdb_ingest.Library.Tables.{unactivated, stale}
use h2hdb_ingest.Library.State.{Journal, is_activating, is_ready}
use h2hdb_ingest.Library.Install.{is_reconciling}
use h2hdb_ingest.Library.Reconciled.Rows.{AllStale}
use h2hdb_ingest.Library.Reconciled.Writes.{AreInstalled}

-- the rows of one revision while it is pending
pub record AreRows (r : ℕ) (j : Journal) : Type 0 where
  pub pending : j.pending_revision ≡ some r
  pub installed : AreInstalled r j.pending_entries j.current_entries
  pub removals : AllStale (some r) j.pending_entries j.pending_removals

-- nothing is left to do for the pending revision
abbrev pub IsSettled : Option ℕ → Journal → Type 0
IsSettled none j = Unit
IsSettled (some r) j =
    (unactivated r j.pending_entries ≡ []) × (stale r j.pending_entries j.current_entries ≡ [])

abbrev pub InstalledRows : Option ℕ → Journal → Type 0
InstalledRows none j = Unit
InstalledRows (some r) j = AreInstalled r j.pending_entries j.current_entries

pub record IsReconciled (j : Journal) : Type 0 where
  pub installed : InstalledRows j.pending_revision j
  pub removals : AllStale j.pending_revision j.pending_entries j.pending_removals
  pub at_rest : is_activating j.phase ≡ false → j.pending_removals ≡ []
  pub finished : is_ready j.phase ≡ true → IsSettled j.pending_revision j

-- to the rows and back, while the phase is ACTIVATING
pub IsReconciled-AreRows :
    (r q : ℕ) (j : Journal) → is_reconciling r q j ≡ true → IsReconciled j → AreRows r j
IsReconciled-AreRows r q j a k = ground arith

pub AreRows-IsReconciled :
    (r : ℕ) (j : Journal) → is_activating j.phase ≡ true → AreRows r j → IsReconciled j
AreRows-IsReconciled r j a k = ground (arith, k.pending)
