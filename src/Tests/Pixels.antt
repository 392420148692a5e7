-- ===== src/Tests/Pixels.antt =====
-- The bounds of `fit_pixels` at a source image of 3000 by 2000 pixels.
use h2hdb_ingest.Prelude.{ℕ, ◌*◌, ◌≡◌, ◌≤◌, some, arith}
use h2hdb_ingest.Pixels.{fit_pixels}
use h2hdb_ingest.Pixels.Bounds.{Fits, fit_pixels-Fits}

fit_pixels-Fits_example :
    (size : ℕ × ℕ) × (fit_pixels 3000 2000 100 200 5000 ≡ some size)
    × Fits 3000 2000 100 200 size
    × (size.0 * size.1 ≤ 5000)
fit_pixels-Fits_example =
    fit_pixels-Fits 3000 2000 100 200 5000 (omega arith) (omega arith) (omega arith) (omega arith)
      (omega arith)
