-- ===== src/Library/State/Yields.antt =====
-- What holds when an action returns: one rule for each way in which an action is built.
use h2hdb_ingest.Prelude.{Result, ok, err, ◌≡◌, refl, subst, sym}
use h2hdb_ingest.Library.State.{
  Error, Journal, Library, Exec, lift, pure, continue, ◌>>=◌, committed, committed_with,
  transaction, transaction_with,
}

-- `Q` of the value and the journal, if the call returns
abbrev pub Holds : {A : Type 0} → (A → Journal → Type 0) → Result Error A × Library → Type 0
Holds Q (ok a, s) = Q a s.journal
Holds Q (err e, s) = Unit

-- From a state whose journal has `P`, an action that returns leaves a journal with `Q` of its value.
pub record Yields {A : Type 0} (P : Journal → Type 0) (Q : A → Journal → Type 0) (m : Exec A)
    : Type 0 where
  pub at : (s : Library) → P s.journal → Holds Q (m s)

continue-Holds :
    {A B : Type 0} {R : A → Journal → Type 0} (Q : B → Journal → Type 0) (r : Result Error A)
    (f : A → Exec B) (s : Library)
    → Holds R (r, s)
    → ((a : A) → Yields (R a) Q (f a))
    → Holds Q (continue r f s)
continue-Holds Q (ok a) f s h k = (k a).at s h
continue-Holds Q (err e) f s h k = tt

-- a value that changes nothing
lift-Holds :
    {A : Type 0} (P : Journal → Type 0) (r : Result Error A) (s : Library)
    → P s.journal
    → Holds (λ _. P) (r, s)
lift-Holds P (ok a) s p = p
lift-Holds P (err e) s p = tt

quiet-Holds :
    {A : Type 0} (P : Journal → Type 0) (o : Result Error A × Library) (s : Library)
    → o.1.journal ≡ s.journal
    → P s.journal
    → Holds (λ _. P) o
quiet-Holds P (ok a, t) s e p = subst P (sym e) p
quiet-Holds P (err x, t) s e p = tt

committed-Holds :
    (Q : Unit {0} → Journal → Type 0) (r : Result Error Journal) (s : Library)
    → ((j : Journal) → r ≡ ok j → Q tt j)
    → Holds Q (committed r s)
committed-Holds Q (ok j) s k = k j refl
committed-Holds Q (err e) s k = tt

committed_with-Holds :
    {A : Type 0} (Q : A → Journal → Type 0) (r : Result Error (Journal × A)) (s : Library)
    → ((j : Journal) (a : A) → r ≡ ok (j, a) → Q a j)
    → Holds Q (committed_with r s)
committed_with-Holds Q (ok (j, a)) s k = k j a refl
committed_with-Holds Q (err e) s k = tt

module _ {P : Journal → Type 0} where
  pub Yields-bind :
      {A B : Type 0} {R : A → Journal → Type 0} {Q : B → Journal → Type 0} {m : Exec A}
      {f : A → Exec B}
      → Yields P R m
      → ((a : A) → Yields (R a) Q (f a))
      → Yields P Q (m >>= f)
  unfolding ◌>>=◌
  Yields-bind {R = R} {Q = Q} {m = m} {f = f} k l = record {
    at = λ s p. continue-Holds {R = R} Q (m s).0 f (m s).1 (k.at s p) l;
  }

  pub Yields-lift : {A : Type 0} (r : Result Error A) → Yields P (λ _. P) (lift r)
  Yields-lift r = record { at = λ s p. lift-Holds P r s p }

  -- a value that the rest may rely on
  pub Yields-lifted :
      {A B : Type 0} {Q : B → Journal → Type 0} (r : Result Error A) {f : A → Exec B}
      → ((a : A) → r ≡ ok a → Yields P Q (f a))
      → Yields P Q (lift r >>= f)
  unfolding ◌>>=◌
  Yields-lifted (ok a) k = record { at = λ s p. (k a refl).at s p }
  Yields-lifted (err e) k = record { at = λ s p. tt }

  pub Yields-pure :
      {A : Type 0} {Q : A → Journal → Type 0} (a : A)
      → ((j : Journal) → P j → Q a j)
      → Yields P Q (pure a)
  Yields-pure a k = record { at = λ s p. k s.journal p }

  -- an action on the marker or the locks
  pub Yields-quiet :
      {A : Type 0} {m : Exec A}
      → ((s : Library) → (m s).1.journal ≡ s.journal)
      → Yields P (λ _. P) m
  Yields-quiet {m = m} q = record { at = λ s p. quiet-Holds P (m s) s (q s) p }

  pub Yields-transaction :
      {Q : Unit {0} → Journal → Type 0} {f : Journal → Result Error Journal}
      → ((j j' : Journal) → P j → f j ≡ ok j' → Q tt j')
      → Yields P Q (transaction f)
  unfolding transaction
  Yields-transaction {Q = Q} {f = f} k = record {
    at = λ s p. committed-Holds Q (f s.journal) s (λ j' e. k s.journal j' p e);
  }

  pub Yields-transaction_with :
      {A : Type 0} {Q : A → Journal → Type 0} {f : Journal → Result Error (Journal × A)}
      → ((j j' : Journal) (a : A) → P j → f j ≡ ok (j', a) → Q a j')
      → Yields P Q (transaction_with f)
  unfolding transaction_with
  Yields-transaction_with {Q = Q} {f = f} k = record {
    at = λ s p. committed_with-Holds Q (f s.journal) s (λ j' a e. k s.journal j' a p e);
  }
