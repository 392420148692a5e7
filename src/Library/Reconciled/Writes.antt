-- ===== src/Library/Reconciled/Writes.antt =====
-- The rows of the pending revision that are published, kept by every transaction.
use h2hdb_ingest.Prelude.{
  ℕ, ◌≡◌, true, false, Option, none, some, List, [], ◌∷◌, arith, refl, Option-cases, Bool-cases,
  inl, inr,
}
use h2hdb_ingest.Library.Tables.{
  Artifact, Cursor, CurrentEntry, PendingEntry, PendingRemoval, find_current, find_pending,
  insert_pending, update_pending, upsert_current, delete_current, same_cursor, same_artifact,
  same_key, pending_conflict,
}
use h2hdb_ingest.Library.Tables.Lookup.{
  same_cursor_iff, find_current-upsert, find_current-delete, find_pending-insert,
  find_pending-update,
}
use h2hdb_ingest.Library.Install.{Installed, mark_started}
use h2hdb_ingest.Library.Publish.{mark_activated, current_row, is_reserved}
use h2hdb_ingest.Library.Reconciled.Rows.{AllStale}

-- the installed row is the one that the entry was published as
abbrev pub Matches : PendingEntry → Option CurrentEntry → Type 0
Matches e none = ⊥
Matches e (some q) = (q.artifact ≡ e.artifact) × (e.identity ≡ some q.identity)

-- every activated entry of the revision is installed
pub record AreInstalled (r : ℕ) (es : List PendingEntry) (cs : List CurrentEntry) : Type 0 where
  pub at :
      (c : Cursor) (e : PendingEntry)
      → find_pending r c es ≡ some e
      → e.activated ≡ true
      → Matches e (find_current c cs)

pub AreInstalled-none :
    (r : ℕ) (es : List PendingEntry) (cs : List CurrentEntry)
    → ((c : Cursor) → find_pending r c es ≡ none)
    → AreInstalled r es cs
AreInstalled-none r es cs h = record { at = λ c e f a. let n = h c in absurd (ground arith) }

pub AreInstalled-insert :
    (r : ℕ) (x : PendingEntry) (es : List PendingEntry) (cs : List CurrentEntry)
    → pending_conflict x es ≡ false
    → x.activated ≡ false
    → AreInstalled r es cs
    → AreInstalled r (insert_pending x es) cs
AreInstalled-insert r x es cs k a h = record {
  at = λ c e f b. let g = find_pending-insert r c x es k in h.at c e (ground arith) b;
}

pub AreInstalled-start :
    (r : ℕ) (d : Cursor) (es : List PendingEntry) (cs : List CurrentEntry)
    → AreInstalled r es cs
    → AreInstalled r (update_pending r d mark_started es) cs
AreInstalled-start r d es cs h = record {
  at = λ c e f b.
      let g = find_pending-update r c d mark_started es (λ x. (refl, refl)) in
      elim (Option-cases (find_pending r c es)) [
        | inl n ↦ absurd (ground arith)
        | inr (x, n) ↦ ground (arith, h.at c x)
      ];
}

same_artifact_eq : (a b : Artifact) → same_artifact a b ≡ true → a ≡ b
unfolding same_artifact same_key
same_artifact_eq a b h = ground arith

pub AreInstalled-publish :
    (r : ℕ) (o : Installed) (x : PendingEntry) (es : List PendingEntry) (cs : List CurrentEntry)
    → o.plan.revision ≡ r
    → find_pending r o.plan.at es ≡ some x
    → is_reserved o.plan x ≡ true
    → AreInstalled r es cs
    → AreInstalled r
        (update_pending r o.plan.at (mark_activated o.identity) es)
        (upsert_current (current_row o) cs)
AreInstalled-publish r o x es cs k n d h = record {
  at = λ c e f b.
      let g =
        find_pending-update r c o.plan.at (mark_activated o.identity) es (λ x. (refl, refl)) in
      let u = find_current-upsert c (current_row o) cs in
      let i = same_cursor_iff o.plan.at c in
      let i' = same_cursor_iff c o.plan.at in
      let a = same_artifact_eq x.artifact o.plan.artifact in
      elim (Bool-cases (same_cursor o.plan.at c)) [
        | inl t ↦ ground (arith, a)
        | inr t ↦ ground (arith, h.at c e)
      ];
}

pub AreInstalled-delete :
    (r : ℕ) (d : Cursor) (es : List PendingEntry) (cs : List CurrentEntry)
    → find_pending r d es ≡ none
    → AreInstalled r es cs
    → AreInstalled r es (delete_current d cs)
AreInstalled-delete r d es cs n h = record {
  at = λ c e f b.
      let u = find_current-delete c d cs in let i = same_cursor_iff d c in ground (arith, h.at c e);
}

find_pending-none :
    (r : ℕ) (c : Cursor) (q : ℕ) (d : Cursor) (f : PendingEntry → PendingEntry)
    (es : List PendingEntry)
    → ((e : PendingEntry) → ((f e).revision ≡ e.revision) × ((f e).at ≡ e.at))
    → find_pending r c es ≡ none
    → find_pending r c (update_pending q d f es) ≡ none
unfolding find_pending update_pending
find_pending-none r c q d f [] k h = refl
find_pending-none r c q d f (x ∷ xs) k h = ground (arith, k x, find_pending-none r c q d f xs k)

-- An update that keeps the keys leaves every removal stale.
pub AllStale-update :
    (p : Option ℕ) (r : ℕ) (d : Cursor) (f : PendingEntry → PendingEntry) (es : List PendingEntry)
    (xs : List PendingRemoval)
    → ((e : PendingEntry) → ((f e).revision ≡ e.revision) × ((f e).at ≡ e.at))
    → AllStale p es xs
    → AllStale p (update_pending r d f es) xs
AllStale-update p r d f es [] k h = tt
AllStale-update p r d f es (x ∷ xs) k h = (
  (h.0.0, find_pending-none x.revision x.at r d f es k h.0.1),
  AllStale-update p r d f es xs k h.1,
)
