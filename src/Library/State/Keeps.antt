-- ===== src/Library/State/Keeps.antt =====
-- Invariants of actions: one rule for each way in which an action is built.
use h2hdb_ingest.Prelude.{Result, ok, err, ◌≡◌, sym, subst, refl, Bool, true, false, if◌then◌else◌}
use h2hdb_ingest.Library.State.{
  Error, Journal, Library, Exec, lift, pure, continue, ◌>>=◌, committed, committed_with,
  transaction, transaction_with,
}

-- From a state whose journal has `P`, the action ends in one with `P`, whether it returns or raises.
pub record Keeps {A : Type 0} (P : Journal → Type 0) (m : Exec A) : Type 0 where
  pub at : (s : Library) → P s.journal → P (m s).1.journal

module _ {P : Journal → Type 0} where
  continue-Keeps :
      {A B : Type 0} (r : Result Error A) (f : A → Exec B) (s : Library)
      → ((a : A) → Keeps P (f a))
      → P s.journal
      → P (continue r f s).1.journal
  continue-Keeps (ok a) f s k h = (k a).at s h
  continue-Keeps (err e) f s k h = h

  pub Keeps-bind :
      {A B : Type 0} {m : Exec A} {f : A → Exec B}
      → Keeps P m
      → ((a : A) → Keeps P (f a))
      → Keeps P (m >>= f)
  unfolding ◌>>=◌
  Keeps-bind {m = m} {f = f} k l = record {
    at = λ s h. continue-Keeps (m s).0 f (m s).1 l (k.at s h);
  }

  pub Keeps-lift : {A : Type 0} (r : Result Error A) → Keeps P (lift r)
  Keeps-lift r = record { at = λ s h. h }

  pub Keeps-pure : {A : Type 0} (a : A) → Keeps P (pure a)
  Keeps-pure a = record { at = λ s h. h }

  -- a test before an action: the action may rely on it
  pub Keeps-check :
      {A : Type 0} (b : Bool) (e : Error) {m : Exec A}
      → (b ≡ true → Keeps P m)
      → Keeps P (lift (if b then ok tt else err e) >>= λ _. m)
  Keeps-check true e k = Keeps-bind (Keeps-lift _) (λ _. k refl)
  Keeps-check false e k = record { at = λ s h. unfold ◌>>=◌ in h }

  -- a value that an action may rely on
  pub Keeps-lifted :
      {A B : Type 0} (r : Result Error A) {f : A → Exec B}
      → ((a : A) → r ≡ ok a → Keeps P (f a))
      → Keeps P (lift r >>= f)
  unfolding ◌>>=◌
  Keeps-lifted (ok a) k = record { at = λ s h. (k a refl).at s h }
  Keeps-lifted (err e) k = record { at = λ s h. h }

  -- an action on the marker or the locks
  pub Keeps-quiet :
      {A : Type 0} {m : Exec A} → ((s : Library) → (m s).1.journal ≡ s.journal) → Keeps P m
  Keeps-quiet q = record { at = λ s h. subst P (sym (q s)) h }

  committed-Keeps :
      (r : Result Error Journal) (s : Library)
      → ((j : Journal) → r ≡ ok j → P j)
      → P s.journal
      → P (committed r s).1.journal
  committed-Keeps (ok j) s k h = k j refl
  committed-Keeps (err e) s k h = h

  pub Keeps-transaction :
      {f : Journal → Result Error Journal}
      → ((j j' : Journal) → P j → f j ≡ ok j' → P j')
      → Keeps P (transaction f)
  unfolding transaction
  Keeps-transaction {f = f} k = record {
    at = λ s h. committed-Keeps (f s.journal) s (λ j' e. k s.journal j' h e) h;
  }

  committed_with-Keeps :
      {A : Type 0} (r : Result Error (Journal × A)) (s : Library)
      → ((j : Journal) (a : A) → r ≡ ok (j, a) → P j)
      → P s.journal
      → P (committed_with r s).1.journal
  committed_with-Keeps (ok (j, a)) s k h = k j a refl
  committed_with-Keeps (err e) s k h = h

  pub Keeps-transaction_with :
      {A : Type 0} {f : Journal → Result Error (Journal × A)}
      → ((j j' : Journal) (a : A) → P j → f j ≡ ok (j', a) → P j')
      → Keeps P (transaction_with f)
  unfolding transaction_with
  Keeps-transaction_with {f = f} k = record {
    at = λ s h. committed_with-Keeps (f s.journal) s (λ j' a e. k s.journal j' a h e) h;
  }
