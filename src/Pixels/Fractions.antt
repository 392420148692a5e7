-- ===== src/Pixels/Fractions.antt =====
-- Non-negative fractions, as `fractions.Fraction`, not reduced to lowest terms: the code uses them
-- only in products that are divided again, where a common factor cancels.
use native.Mathlib.Nat.{div-le_of_le-mul, le_of_mul-le-mul_right, mul-le-mul_left, mul-le-mul_right}
use h2hdb_ingest.Prelude.{ℕ, ◌*◌, ◌/◌, ◌≤◌, ◌<◌, max, arith, ltb, if◌then◌else◌}

pub record Fraction : Type 0 where
  pub num : ℕ
  pub den : ℕ

abbrev pub one : Fraction
one = record { num = 1; den = 1 }

-- `min` of two: the first unless the second is smaller
pub least : Fraction → Fraction → Fraction
least f g = if ltb (g.num * f.den) (f.num * g.den) then g else f

-- `max(1, n * scale.numerator // scale.denominator)`
pub scaled : ℕ → Fraction → ℕ
scaled n f = max 1 (n * f.num / f.den)

-- `f` takes `n` to at most `b`.
pub record Caps (f : Fraction) (n b : ℕ) : Type 0 where
  pub positive : 0 < f.den
  pub capped : n * f.num ≤ b * f.den

pub scaled-le : (n b : ℕ) (f : Fraction) → 1 ≤ b → Caps f n b → scaled n f ≤ b
unfolding scaled
scaled-le n b f p h = omega (arith, div-le_of_le-mul f.den {m = n * f.num} {n = b} (omega arith))

pub scaled_pos : (n : ℕ) (f : Fraction) → 1 ≤ scaled n f
unfolding scaled
scaled_pos n f = omega arith

transfer : (n b p q r s : ℕ) → 0 < q → n * p ≤ b * q → r * q ≤ p * s → n * r ≤ b * s
transfer n b p q r s pos h k =
    le_of_mul-le-mul_right
      (omega (
        arith,
        mul-le-mul_left {m = r * q} {n = p * s} n k,
        mul-le-mul_right {m = n * p} {n = b * q} s h,
      ))
      pos

pub least-Caps_left : (f g : Fraction) (n b : ℕ) → 0 < g.den → Caps f n b → Caps (least f g) n b
unfolding least
least-Caps_left f g n b p h = ground (arith, transfer n b f.num f.den g.num g.den)

pub least-Caps_right : (f g : Fraction) (n b : ℕ) → 0 < f.den → Caps g n b → Caps (least f g) n b
unfolding least
least-Caps_right f g n b p h = ground (arith, transfer n b g.num g.den f.num f.den)

pub least-den_pos : (f g : Fraction) → 0 < f.den → 0 < g.den → 0 < (least f g).den
unfolding least
least-den_pos f g p q = ground arith
