-- ===== src/Pixels/Root.antt =====
-- `math.isqrt`, the integer square root.
use h2hdb_ingest.Prelude.{ℕ, zero, suc, ◌+◌, ◌*◌, ◌≤◌, ◌<◌, arith, leb, if◌then◌else◌}

pub isqrt : ℕ → ℕ
isqrt zero = 0
isqrt (suc n) = let r = isqrt n in if leb ((r + 1) * (r + 1)) (suc n) then r + 1 else r

-- The root is the largest number whose square is at most `n`.
pub isqrt_lem : (n : ℕ) → (isqrt n * isqrt n ≤ n) × (n < (isqrt n + 1) * (isqrt n + 1))
unfolding isqrt
isqrt_lem zero = omega arith
isqrt_lem (suc n) = ground (arith, isqrt_lem n)

pub isqrt-le : (n : ℕ) → isqrt n ≤ n
isqrt-le n = grind (arith, isqrt_lem n)
