-- ===== src/Library/Files/Twins.antt =====
-- What an unlink leaves: another name of the same inode, or every file that is not the one of the plan.
use h2hdb_ingest.Prelude.{ℕ, Bool, true, false, ◌&&◌, Option, none, some, ok, ◌==◌, ◌≡◌, arith}
use h2hdb_ingest.Library.Tables.{same_identity}
use h2hdb_ingest.Library.Files.{
  Signature, File, in_stage, in_current, in_quarantine, same_signature, same_content, same_inode,
  without,
}
use h2hdb_ingest.Library.Files.Checks.{
  verify_regular, verify_shared, require_authority, verify_renamed,
}
use h2hdb_ingest.Library.Files.Kept.{is_same, is_kept, touched_at-is_same}

abbrev twin : Option File → File → Bool
twin none f = false
twin (some h) f = same_inode h f && h.digest == f.digest

-- the twin of a file has its bytes
twin-is_same :
    (g f : File) (o : Option File)
    → twin o f ≡ true
    → is_same g (some f) ≡ true
    → is_same g o ≡ true
unfolding same_inode
twin-is_same g f none e h = absurd (cc)
twin-is_same g f (some x) e h = ground (arith, e, h)

module _ (g f : File) (t : ℕ) where
  pub capture-twin :
      (s q : Option File)
      → twin q f ≡ true
      → is_kept g (record { stage = s; current = some f; quarantine = q }) ≡ true
      → is_kept g (without in_current f t (record { stage = s; current = some f; quarantine = q }))
        ≡ true
  capture-twin s q e k =
      ground
        (arith, k, touched_at-is_same t f g s, touched_at-is_same t f g q, twin-is_same g f q e)

  pub install-twin :
      (c q : Option File)
      → twin c f ≡ true
      → is_kept g (record { stage = some f; current = c; quarantine = q }) ≡ true
      → is_kept g (without in_stage f t (record { stage = some f; current = c; quarantine = q }))
        ≡ true
  install-twin c q e k =
      ground
        (arith, k, touched_at-is_same t f g c, touched_at-is_same t f g q, twin-is_same g f c e)

  -- the file that is deleted is another one
  pub retired-other :
      (s c : Option File)
      → same_inode g f ≡ false
      → is_kept g (record { stage = s; current = c; quarantine = some f }) ≡ true
      → is_kept g
          (without in_quarantine f t (record { stage = s; current = c; quarantine = some f }))
        ≡ true
  unfolding same_inode
  retired-other s c e k =
      ground (arith, e, k, touched_at-is_same t f g s, touched_at-is_same t f g c)

-- both names of a capture, or of an installation, are verified to be one inode
pub verify_shared-capture :
    (digest size : ℕ) (f : File) (q : Option File) (expected a : Signature) (s : Option File)
    → verify_shared digest size expected in_current in_quarantine
        (record { stage = s; current = some f; quarantine = q })
      ≡ ok a
    → twin q f ≡ true
unfolding verify_shared verify_regular same_signature same_identity same_inode
verify_shared-capture digest size f none expected a s e = ground (arith, e)
verify_shared-capture digest size f (some h) expected a s e = ground (arith, e)

pub verify_shared-install :
    (digest size : ℕ) (f : File) (c : Option File) (expected a : Signature) (q : Option File)
    → verify_shared digest size expected in_stage in_current
        (record { stage = some f; current = c; quarantine = q })
      ≡ ok a
    → twin c f ≡ true
unfolding verify_shared verify_regular same_signature same_identity same_inode
verify_shared-install digest size f none expected a q e = ground (arith, e)
verify_shared-install digest size f (some h) expected a q e = ground (arith, e)

-- what is verified to be the old file is not another one
pub verify_renamed-other :
    (digest size : ℕ) (g f old : File) (a : Signature) (s c : Option File)
    → same_inode g old ≡ false
    → verify_renamed digest size old.signature in_quarantine
        (record { stage = s; current = c; quarantine = some f })
      ≡ ok a
    → same_inode g f ≡ false
unfolding verify_renamed verify_regular same_content same_inode
verify_renamed-other digest size g f old a s c n e = ground (arith, n, e)

pub require_authority-other :
    (size : ℕ) (g f old : File) (a : Signature) (s c : Option File)
    → same_inode g old ≡ false
    → require_authority size old.signature true in_quarantine
        (record { stage = s; current = c; quarantine = some f })
      ≡ ok a
    → same_inode g f ≡ false
unfolding require_authority same_content same_inode
require_authority-other size g f old a s c n e = ground (arith, n, e)
