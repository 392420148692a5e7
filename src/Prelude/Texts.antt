-- ===== src/Prelude/Texts.antt =====
-- Texts as lists of characters: equality, decimal numerals, and the split and join of paths.
use Prim.Native.Char.{code}
use Prim.Native.Nat.{ℕ, zero, suc, ◌+◌, ◌-◌, ◌*◌, ◌/◌, ◌%◌, ◌^◌, ◌<◌}
use Prim.Native.String.{String}
use mathlib.Core.Logic.{inl, inr}
use mathlib.Core.Path.{◌≡◌, refl}
use mathlib.Core.Bool.{Bool, true, false, ◌&&◌}
use mathlib.Core.Option.{Option, none, some}
use mathlib.Core.List.{List, [], ◌∷◌, ◌++◌}
use h2hdb_ingest.Prelude.Tests.{Bool-cases}
use native.Mathlib.Omega.{arith}
use h2hdb_ingest.Prelude.Tests.{ltb, leb, ◌==◌, if◌then◌else◌}
use h2hdb_ingest.Prelude.Lists.{All}

abbrev pub Text : Type 0
Text = List ℕ

abbrev pub text : String → Text
text String.[] = []
text (String.◌∷◌ c s) = code c ∷ text s

unfoldable pub same_text : Text → Text → Bool
same_text [] [] = true
same_text (a ∷ x) (b ∷ y) = a == b && same_text x y
same_text _ _ = false

pub same_text_refl : (a : Text) → same_text a a ≡ true
unfolding same_text
same_text_refl [] = refl
same_text_refl (a ∷ x) = ground (arith, same_text_refl x)

pub same_text-eq : (a b : Text) → same_text a b ≡ true → a ≡ b
unfolding same_text
same_text-eq [] [] h = refl
same_text-eq [] (b ∷ y) h = cc
same_text-eq (a ∷ x) [] h = cc
same_text-eq (a ∷ x) (b ∷ y) h = ground (arith, same_text-eq x y)

-- `str` of a number below 10 ^ fuel
unfoldable pub decimal : ℕ → ℕ → Text
decimal zero n = []
decimal (suc f) n =
    let rest = decimal f (n / 10) ++ (n % 10 + 48) ∷ [] in if ltb n 10 then (n + 48) ∷ [] else rest

abbrev pub is_digit : ℕ → Bool
is_digit c = leb 48 c && leb c 57

-- the digits that follow a number
unfoldable pub read_digits : ℕ → Text → Option ℕ
read_digits acc [] = some acc
read_digits acc (c ∷ cs) =
    let rest = read_digits (10 * acc + (c - 48)) cs in if is_digit c then rest else none

-- `int` of a text of ASCII digits
unfoldable pub read_decimal : Text → Option ℕ
read_decimal [] = none
read_decimal (c ∷ cs) = read_digits 0 (c ∷ cs)

-- every character is a digit
abbrev pub AreDigits : Text → Type 0
AreDigits = All (λ c. is_digit c ≡ true)

append-AreDigits : (a b : Text) → AreDigits a → AreDigits b → AreDigits (a ++ b)
append-AreDigits [] b h k = k
append-AreDigits (c ∷ a) b h k = (h.0, append-AreDigits a b h.1 k)

pub decimal-AreDigits : (f n : ℕ) → AreDigits (decimal f n)
unfolding decimal
decimal-AreDigits zero n = tt
decimal-AreDigits (suc f) n = ground (
  arith,
  append-AreDigits (decimal f (n / 10)) ((n % 10 + 48) ∷ []) (decimal-AreDigits f (n / 10)),
)

-- Reading goes on from what a prefix gives.
read_digits-append :
    (acc v d : ℕ) (a : Text)
    → d < 10
    → read_digits acc a ≡ some v
    → read_digits acc (a ++ (d + 48) ∷ []) ≡ some (10 * v + d)
unfolding read_digits
read_digits-append acc v d [] h e = ground arith
read_digits-append acc v d (c ∷ a) h e =
    ground (arith, read_digits-append (10 * acc + (c - 48)) v d a h)

pow_step : (f n : ℕ) → n < 10 ^ suc f → n / 10 < 10 ^ f
pow_step f n h = omega arith

pub read_digits-decimal : (f n : ℕ) → 0 < f → n < 10 ^ f → read_digits 0 (decimal f n) ≡ some n
unfolding decimal read_digits
read_digits-decimal zero n z h = absurd (omega arith)
read_digits-decimal (suc zero) n z h = ground arith
read_digits-decimal (suc (suc f)) n z h = ground (
  arith,
  pow_step (suc f) n h,
  read_digits-append 0 (n / 10) (n % 10) (decimal (suc f) (n / 10)),
  read_digits-decimal (suc f) (n / 10),
)

-- A text with a last character is read digit by digit.
read_last :
    (a : Text) (c v : ℕ)
    → read_digits 0 (a ++ c ∷ []) ≡ some v
    → read_decimal (a ++ c ∷ []) ≡ some v
unfolding read_decimal
read_last [] c v h = h
read_last (d ∷ a) c v h = h

-- Printing and reading a number.
pub read_decimal-decimal : (f n : ℕ) → n < 10 ^ suc f → read_decimal (decimal (suc f) n) ≡ some n
unfolding decimal
read_decimal-decimal f n h =
    let e = read_digits-decimal (suc f) n (omega arith) h in
    elim (Bool-cases (ltb n 10)) [
      | inl l ↦ ground (arith, read_last [] (n + 48) n)
      | inr l ↦ ground (arith, read_last (decimal f (n / 10)) (n % 10 + 48) n)
    ]
