-- ===== src/Monitor/Order.antt =====
-- The order of texts, and lists of texts in that order.
use h2hdb_ingest.Prelude.{
  ℕ, zero, suc, ◌≡◌, Bool, true, false, List, [], ◌∷◌, arith, refl, All, take, Bool-cases, inl, inr,
  ◌⊎◌, ◌||◌,
}
use h2hdb_ingest.Prelude.Texts.{Text, same_text, same_text-eq}
use h2hdb_ingest.Monitor.{text_before, last_of}

pub text_before_irrefl : (a : Text) → text_before a a ≡ false
unfolding text_before
text_before_irrefl [] = refl
text_before_irrefl (c ∷ a) = ground (arith, text_before_irrefl a)

pub text_before_trans :
    (a b c : Text) → text_before a b ≡ true → text_before b c ≡ true → text_before a c ≡ true
unfolding text_before
text_before_trans a b [] h k = k
text_before_trans [] b (z ∷ c) h k = refl
text_before_trans (x ∷ a) [] (z ∷ c) h k = absurd (ground arith)
text_before_trans (x ∷ a) (y ∷ b) (z ∷ c) h k = ground (arith, text_before_trans a b c)

-- Two texts that are not the same are in one of the two orders.
pub text_before_total :
    (a b : Text) → same_text a b ≡ false → text_before a b ≡ false → text_before b a ≡ true
unfolding text_before same_text
text_before_total [] [] h k = absurd (ground arith)
text_before_total [] (d ∷ b) h k = absurd (ground arith)
text_before_total (c ∷ a) [] h k = refl
text_before_total (c ∷ a) (d ∷ b) h k = ground (arith, text_before_total a b)

-- every text of a list is after a text
abbrev pub AreAfter : Text → List Text → Type 0
AreAfter a = All (λ b. text_before a b ≡ true)

unfoldable pub AreOrdered : List Text → Type 0
AreOrdered [] = Unit
AreOrdered (a ∷ bs) = AreAfter a bs × AreOrdered bs

unfoldable pub is_in : Text → List Text → Bool
is_in k [] = false
is_in k (a ∷ bs) = same_text a k || is_in k bs

pub AreAfter-trans :
    (a b : Text) (bs : List Text) → text_before a b ≡ true → AreAfter b bs → AreAfter a bs
AreAfter-trans a b [] h k = tt
AreAfter-trans a b (c ∷ bs) h k = (text_before_trans a b c h k.0, AreAfter-trans a b bs h k.1)

pub AreAfter-is_in :
    (a k : Text) (bs : List Text) → AreAfter a bs → is_in k bs ≡ true → text_before a k ≡ true
unfolding is_in
AreAfter-is_in a k [] h m = absurd (ground arith)
AreAfter-is_in a k (b ∷ bs) h m = elim (Bool-cases (same_text b k)) [
  | inl e ↦ let same : b ≡ k = same_text-eq b k e in rw⁻¹ same h.0
  | inr e ↦ AreAfter-is_in a k bs h.1 (ground arith)
]

-- A text of an ordered list is in the first page of it, or after the last text of the page.
pub page-covers :
    (n : ℕ) (k x : Text) (xs : List Text)
    → AreOrdered (x ∷ xs)
    → is_in k (x ∷ xs) ≡ true
    → (is_in k (x ∷ take n xs) ≡ true) ⊎ (text_before (last_of x (take n xs)) k ≡ true)
unfolding is_in AreOrdered
page-covers n k x [] o m = elim n [ zero ↦ inl (ground arith) | suc n' ↦ inl (ground arith) ]
page-covers zero k x (y ∷ ys) o m = elim (Bool-cases (same_text x k)) [
  | inl e ↦ inl (ground arith)
  | inr e ↦ inr (AreAfter-is_in x k (y ∷ ys) o.0 (ground arith))
]
page-covers (suc n) k x (y ∷ ys) o m = elim (Bool-cases (same_text x k)) [
  | inl e ↦ inl (ground arith)
  | inr e ↦ elim (page-covers n k y ys o.1 (ground arith)) [
    | inl h ↦ inl (ground arith)
    | inr h ↦ inr h
  ]
]

pub is_in-page :
    (k x : Text) (xs : List Text) (n : ℕ) → is_in k (x ∷ take n xs) ≡ true → is_in k (x ∷ xs) ≡ true
unfolding is_in
is_in-page k x [] zero h = h
is_in-page k x [] (suc n) h = h
is_in-page k x (y ∷ ys) zero h = ground arith
is_in-page k x (y ∷ ys) (suc n) h = elim (Bool-cases (same_text x k)) [
  | inl e ↦ ground arith
  | inr e ↦ ground (arith, is_in-page k y ys n (ground arith))
]
