-- ===== src/Library/Tokens/Replace.antt =====
-- Every update of the token table replaces one row.
use h2hdb_ingest.Prelude.{
  ℕ, ◌≡◌, false, Option, none, some, List, [], ◌∷◌, arith, refl, Bool-cases, inl, inr, ◌==◌, sym,
  subst,
}
use h2hdb_ingest.Library.State.{Token}
use h2hdb_ingest.Library.Tables.{StorageKey}
use h2hdb_ingest.Library.Protection.{find_token, is_active, slot_taken, update_token}
use h2hdb_ingest.Library.Tokens.Shape.{
  AreShaped, AreDistinct, AreSeparate, AreValid, Later, Later-refl, Swap,
}

pub data Replaced : List Token → List Token → Type 0 where
  here : (t u : Token) (ts : List Token) → Swap t u → Replaced (t ∷ ts) (u ∷ ts)
  there : (t : Token) (ts us : List Token) → Replaced ts us → Replaced (t ∷ ts) (t ∷ us)

-- A token without a row has none afterwards.
Replaced-none :
    (n : ℕ) (ts us : List Token) → Replaced ts us → find_token n ts ≡ none → find_token n us ≡ none
unfolding find_token
Replaced-none n _ _ (here t u ts s) h = let e = s.later.token in ground arith
Replaced-none n _ _ (there t ts us r) h = ground (arith, Replaced-none n ts us r)

Replaced-AreDistinct : (ts us : List Token) → Replaced ts us → AreDistinct ts → AreDistinct us
Replaced-AreDistinct _ _ (here t u ts s) h = rw s.later.token h
Replaced-AreDistinct _ _ (there t ts us r) h =
    (Replaced-none t.token ts us r h.0, Replaced-AreDistinct ts us r h.1)

Replaced-AreShaped : (ts us : List Token) → Replaced ts us → AreShaped ts → AreShaped us
Replaced-AreShaped _ _ (here t u ts s) h = (s.shape h.0, h.1)
Replaced-AreShaped _ _ (there t ts us r) h = (h.0, Replaced-AreShaped ts us r h.1)

-- No row takes a slot that was free.
Replaced-slot :
    (k : StorageKey) (ts us : List Token)
    → Replaced ts us
    → slot_taken k ts ≡ false
    → slot_taken k us ≡ false
unfolding slot_taken
Replaced-slot k _ _ (here t u ts s) h =
    let e = s.later.key in
    elim (Bool-cases (is_active u.state)) [
      | inl a ↦ let b = s.slot a in ground arith
      | inr a ↦ ground arith
    ]
Replaced-slot k _ _ (there t ts us r) h = ground (arith, Replaced-slot k ts us r)

Replaced-AreSeparate : (ts us : List Token) → Replaced ts us → AreSeparate ts → AreSeparate us
Replaced-AreSeparate _ _ (here t u ts s) h =
    let e = s.later.key in
    elim (Bool-cases (is_active u.state)) [
      | inl a ↦ let b = s.slot a in ground arith
      | inr a ↦ ground arith
    ]
Replaced-AreSeparate _ _ (there t ts us r) h =
    ground (arith, Replaced-slot t.key ts us r, Replaced-AreSeparate ts us r h.1)

pub Replaced-AreValid : (ts us : List Token) → Replaced ts us → AreValid ts → AreValid us
Replaced-AreValid ts us r h = record {
  shaped = Replaced-AreShaped ts us r h.shaped;
  distinct = Replaced-AreDistinct ts us r h.distinct;
  separate = Replaced-AreSeparate ts us r h.separate;
}

-- the token has a row, for the object of `t` and no less far
abbrev pub HasLater : Token → Option Token → Type 0
HasLater t none = ⊥
HasLater t (some u) = Later t u

pub Replaced-find :
    (n : ℕ) (x : Token) (ts us : List Token)
    → Replaced ts us
    → find_token n ts ≡ some x
    → HasLater x (find_token n us)
unfolding find_token
Replaced-find n x _ _ (here t u ts s) h =
    let e = s.later.token in
    let l = s.later in
    elim (Bool-cases (t.token == n)) [
      | inl a ↦ ground (arith, l.forward)
      | inr a ↦ ground (arith, Later-refl x)
    ]
Replaced-find n x _ _ (there t ts us r) h = ground (arith, Later-refl x, Replaced-find n x ts us r)

-- An update under a token that has no row does nothing.
update_token-none :
    (n : ℕ) (f : Token → Token) (ts : List Token)
    → find_token n ts ≡ none
    → update_token n f ts ≡ ts
unfolding find_token update_token
update_token-none n f [] h = refl
update_token-none n f (x ∷ xs) h = ground (arith, update_token-none n f xs)

pub update_token-Replaced :
    (n : ℕ) (f : Token → Token) (t : Token) (ts : List Token)
    → AreDistinct ts
    → find_token n ts ≡ some t
    → Swap t (f t)
    → Replaced ts (update_token n f ts)
unfolding find_token update_token
update_token-Replaced n f t [] d h s = cc
update_token-Replaced n f t (x ∷ xs) d h s = elim (Bool-cases (x.token == n)) [
  | inl a ↦
      let same : x ≡ t = ground arith in
      let e : x.token ≡ n = ground arith in
      let rest : update_token n f xs ≡ xs =
        update_token-none n f xs (subst (λ m. find_token m xs ≡ none) e d.0) in
      rw (a, rest) (subst (λ y. Replaced (y ∷ xs) (f y ∷ xs)) (sym same) (here t (f t) xs s))
  | inr a ↦
      rw a (there x xs (update_token n f xs) (update_token-Replaced n f t xs d.1 (ground arith) s))
]
