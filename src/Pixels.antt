-- ===== src/Pixels.antt =====
-- `_fit_pixels` of source_image.py: the size to which a source image is reduced.
pub mod Root
pub mod Fractions
pub mod Bounds
use h2hdb_ingest.Prelude.{
  ℕ, ◌*◌, ◌/◌, min, max, Option, none, some, ltb, leb, ◌==◌, if◌then◌else◌, ◌||◌,
}
use Root.{isqrt}
use Fractions.{Fraction, one, least, scaled}

-- the two sizes after the bound on the number of pixels
abbrev pub limited : ℕ → ℕ → ℕ → ℕ → ℕ → ℕ × ℕ
limited width height max_pixels output_width output_height =
    if ltb max_pixels (output_width * output_height)
    then (if leb height width
        then (max_pixels / output_height, output_height)
        else (output_width, max_pixels / output_width))
    else (output_width, output_height)

abbrev pub scale : ℕ → ℕ → ℕ → ℕ → Fraction
scale width height max_short_side max_long_side =
    least (least one (record { num = max_short_side; den = min width height }))
      (record { num = max_long_side; den = max width height })

-- the block under `if output_width * output_height > max_pixels`
pub within_pixels : ℕ → ℕ → ℕ → ℕ → ℕ → ℕ × ℕ
within_pixels width height max_pixels w h =
    if ltb max_pixels (w * h)
    then limited width height max_pixels (min w (max 1 (isqrt (max_pixels * width / height))))
        (min h (max 1 (isqrt (max_pixels * height / width))))
    else (w, h)

-- `none` is the ZeroDivisionError of `Fraction(max_short_side, 0)`
pub fit_pixels : ℕ → ℕ → ℕ → ℕ → ℕ → Option (ℕ × ℕ)
fit_pixels width height max_short_side max_long_side max_pixels =
    let s = scale width height max_short_side max_long_side in
    if min width height == 0
    then none
    else some (within_pixels width height max_pixels (scaled width s) (scaled height s))
