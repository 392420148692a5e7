-- ===== src/Library/Marker.antt =====
-- The ACTIVATING marker of library.py, and the arguments that its methods check.
use h2hdb_ingest.Prelude.{ℕ, Bool, true, false, ◌&&◌, Result, ok, err, ◌==◌, if◌then◌else◌}
use h2hdb_ingest.Library.State.{Error, Marker, absent, exact, Bytes, Exec, int63, exact_bytes}

abbrev pub max_page_items : ℕ
max_page_items = 128

abbrev pub revision_of : ℕ → Result Error ℕ
revision_of r = int63 r Error.bad_revision

abbrev pub receipt_of : Bytes → Result Error ℕ
receipt_of b = exact_bytes 16 Error.bad_receipt b

-- `_marker_path.exists() or _marker_path.is_symlink()`
abbrev pub is_present : Marker → Bool
is_present absent = false
is_present _ = true

-- the marker holds the payload of this revision and receipt
abbrev pub is_marker_of : ℕ → ℕ → Marker → Bool
is_marker_of r p (exact a b) = a == r && b == p
is_marker_of r p _ = false

-- `_verify_marker`
unfoldable pub verify_marker : ℕ → ℕ → Exec (Unit {0})
verify_marker r p s =
    if is_marker_of r p s.marker then (ok tt, s) else (err Error.foreign_marker, s)

-- `_write_marker`: publishes it, or verifies the one that is there
unfoldable pub write_marker : ℕ → ℕ → Exec (Unit {0})
unfolding verify_marker
write_marker r p s =
    if is_present s.marker then verify_marker r p s else (ok tt, record s { marker = exact r p })

-- `_remove_marker`: verifies and unlinks
unfoldable pub remove_marker : ℕ → ℕ → Exec (Unit {0})
remove_marker r p s =
    if is_marker_of r p s.marker
    then (ok tt, record s { marker = absent })
    else (err Error.foreign_marker, s)

-- the marker of a completed activation: removed, or found absent by `_replay_removed_marker`
unfoldable pub settle_marker : ℕ → ℕ → Exec (Unit {0})
unfolding remove_marker
settle_marker r p s = if is_present s.marker then remove_marker r p s else (ok tt, s)
