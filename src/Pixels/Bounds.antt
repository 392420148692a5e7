-- ===== src/Pixels/Bounds.antt =====
-- The bounds that the reduced size meets.
use native.Mathlib.Nat.{div-le_of_le-mul, div-mul-le_self, le-div_iff_mul-le, mul-le-mul_left}
use h2hdb_ingest.Prelude.{
  ℕ, ◌*◌, ◌/◌, ◌≤◌, ◌<◌, ◌≡◌, min, max, some, arith, ltb, Bool-cases, ◌⊎◌, inl, inr,
}
use h2hdb_ingest.Pixels.{limited, within_pixels, scale, fit_pixels}
use h2hdb_ingest.Pixels.Root.{isqrt, isqrt-le}
use h2hdb_ingest.Pixels.Fractions.{
  Fraction, Caps, one, least, scaled, scaled-le, scaled_pos, least-Caps_left, least-Caps_right,
  least-den_pos,
}

-- What the size (w, h) has to meet.
pub record Fits (width height short long : ℕ) (size : ℕ × ℕ) : Type 0 where
  pub positive : (1 ≤ size.0) × (1 ≤ size.1)
  pub not_enlarged : (size.0 ≤ width) × (size.1 ≤ height)
  pub long_side : (size.0 ≤ long) × (size.1 ≤ long)
  pub short_side : min size.0 size.1 ≤ short

module _ (width height short long : ℕ) (w_pos : 1 ≤ width) (h_pos : 1 ≤ height) (s_pos : 1 ≤ short)
    (l_pos : 1 ≤ long) where
  abbrev by_one : Fraction
  by_one = least one (record { num = short; den = min width height })

  by_one_positive : 0 < by_one.den
  by_one_positive = least-den_pos _ _ (omega arith) (omega arith)

  cap_one : (n : ℕ) → Caps (scale width height short long) n n
  cap_one n =
      least-Caps_left _ _ n n (omega arith) (least-Caps_left _ _ n n (omega arith) (omega arith))

  cap_long : (n : ℕ) → n ≤ max width height → Caps (scale width height short long) n long
  cap_long n h =
      least-Caps_right _ _ n long by_one_positive
        (record { positive = omega arith; capped = omega (arith, mul-le-mul_left long h) })

  cap_short : (n : ℕ) → n ≤ min width height → Caps (scale width height short long) n short
  cap_short n h = least-Caps_left _ _ n short (omega arith) (
      least-Caps_right _ _ n short (omega arith)
        (record { positive = omega arith; capped = omega (arith, mul-le-mul_left short h) }))

  short_enough :
      (width ≤ height) ⊎ (height ≤ width)
      → let s = scale width height short long in min (scaled width s) (scaled height s) ≤ short
  short_enough (inl h) =
      let s = scale width height short long in
      omega (arith, scaled-le width short s s_pos (cap_short width (omega arith)))
  short_enough (inr h) =
      let s = scale width height short long in
      omega (arith, scaled-le height short s s_pos (cap_short height (omega arith)))

  -- The size before the bound on pixels.
  scaled-Fits :
      let s = scale width height short long in
      Fits width height short long (scaled width s, scaled height s)
  scaled-Fits =
      let s = scale width height short long in
      record {
        positive = (scaled_pos width s, scaled_pos height s);
        not_enlarged = (
          scaled-le width width s w_pos (cap_one width),
          scaled-le height height s h_pos (cap_one height),
        );
        long_side = (
          scaled-le width long s l_pos (cap_long width (omega arith)),
          scaled-le height long s l_pos (cap_long height (omega arith)),
        );
        short_side = short_enough (omega arith);
      }

Fits-smaller :
    (width height short long a b c d : ℕ)
    → Fits width height short long (a, b)
    → 1 ≤ c
    → 1 ≤ d
    → c ≤ a
    → d ≤ b
    → Fits width height short long (c, d)
Fits-smaller width height short long a b c d h p q r t = omega arith

-- The last bound keeps a positive size, and brings the number of pixels under the limit.
record IsLimited (max_pixels w h : ℕ) (size : ℕ × ℕ) : Type 0 where
  positive : (1 ≤ size.0) × (1 ≤ size.1)
  smaller : (size.0 ≤ w) × (size.1 ≤ h)
  pixels : size.0 * size.1 ≤ max_pixels

divided : (m w h : ℕ) → 1 ≤ h → h ≤ m → m < w * h → (1 ≤ m / h) × (m / h ≤ w) × (m / h * h ≤ m)
divided m w h p q r = (
  (le-div_iff_mul-le {k = h} {x = 1} {y = m} p).1 (omega arith),
  div-le_of_le-mul h {m = m} {n = w} (omega arith),
  div-mul-le_self m h,
)

limited-IsLimited :
    (width height m w h : ℕ)
    → 1 ≤ w
    → 1 ≤ h
    → (height ≤ width → h ≤ m)
    → (width < height → w ≤ m)
    → IsLimited m w h (limited width height m w h)
limited-IsLimited width height m w h p q s t = ground (arith, divided m w h, divided m h w)

root-le : (a b m : ℕ) → 1 ≤ b → a ≤ b → isqrt (m * a / b) ≤ m
root-le a b m p h = omega (
  arith,
  isqrt-le (m * a / b),
  div-le_of_le-mul b {m = m * a} {n = m} (omega (arith, mul-le-mul_left m h)),
)

within_pixels-IsLimited :
    (width height m w h : ℕ)
    → 1 ≤ width
    → 1 ≤ height
    → 1 ≤ m
    → 1 ≤ w
    → 1 ≤ h
    → IsLimited m w h (within_pixels width height m w h)
unfolding within_pixels
within_pixels-IsLimited width height m w h p q r s t = elim (Bool-cases (ltb m (w * h))) [
  | inr e ↦ rw e (ground arith)
  | inl e ↦ rw e (
      let l =
        limited-IsLimited width height m (min w (max 1 (isqrt (m * width / height))))
          (min h (max 1 (isqrt (m * height / width)))) (omega arith) (omega arith)
          (λ o. omega (arith, root-le height width m p o))
          (λ o. omega (arith, root-le width height m q (omega arith))) in
      record {
        positive = l.positive;
        smaller = (omega (arith, l.smaller.0), omega (arith, l.smaller.1));
        pixels = l.pixels;
      })
]

-- For a source of at least one pixel each way and limits of at least one, the reduction returns a
-- size that is positive, no larger than the source either way, within the long side both ways,
-- within the short side on its shorter side, and within the number of pixels.
pub fit_pixels-Fits :
    (width height short long max_pixels : ℕ)
    → 1 ≤ width
    → 1 ≤ height
    → 1 ≤ short
    → 1 ≤ long
    → 1 ≤ max_pixels
    → (size : ℕ × ℕ) × (fit_pixels width height short long max_pixels ≡ some size)
      × Fits width height short long size
      × (size.0 * size.1 ≤ max_pixels)
unfolding fit_pixels
fit_pixels-Fits width height short long m p q r s t =
    let f = scale width height short long in
    let w = scaled width f in
    let h = scaled height f in
    let fits = scaled-Fits width height short long p q r s in
    let l = within_pixels-IsLimited width height m w h p q t fits.positive.0 fits.positive.1 in
    let (c, d) = within_pixels width height m w h in
    (
      within_pixels width height m w h,
      ground arith,
      Fits-smaller width height short long w h c d fits l.positive.0 l.positive.1 l.smaller.0
          l.smaller.1,
      l.pixels,
    )
