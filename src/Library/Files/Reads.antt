-- ===== src/Library/Files/Reads.antt =====
-- The checks of a key's files pass on what they are meant for.
use h2hdb_ingest.Prelude.{ℕ, Bool, true, false, none, some, ok, ◌==◌, ◌≡◌, arith}
use h2hdb_ingest.Library.Tables.{same_identity}
use h2hdb_ingest.Library.Files.{
  Signature, File, Files, Slot, in_stage, in_current, in_quarantine, file_at, same_signature,
  same_content, same_inode, touched,
}
use h2hdb_ingest.Library.Files.Checks.{
  links, verify_regular, require_metadata, require_authority, verify_and_fsync, verify_renamed,
  require_shared, verify_shared, fsync_renamed, fsync_recovered_capture, fsync_recovered_install,
  verify_captured, require_exact,
}

==-refl : (n : ℕ) → (n == n) ≡ true
==-refl n = ground arith

pub same_signature_refl : (s : Signature) → same_signature s s ≡ true
unfolding same_signature same_identity
same_signature_refl s = simp (==-refl)

pub same_content_refl : (s : Signature) → same_content s s ≡ true
unfolding same_content
same_content_refl s = simp (==-refl)

pub same_content-touched :
    (t : ℕ) (f : File) → same_content (touched t f).signature f.signature ≡ true
unfolding same_content
same_content-touched t f = simp (==-refl)

pub same_inode_refl : (f : File) → same_inode f f ≡ true
unfolding same_inode
same_inode_refl f = simp (==-refl)

-- the slot holds the file, whose inode has so many names
pub record IsLinked (k : ℕ) (f : File) (slot : Slot) (fs : Files) : Type 0 where
  pub at : file_at slot fs ≡ some f
  pub count : links f fs ≡ k

module _ {k : ℕ} {f : File} {slot : Slot} {fs : Files} (l : IsLinked k f slot fs) where
  pub verify_regular-ok : verify_regular f.digest f.signature.size_bytes slot fs ≡ ok f.signature
  unfolding verify_regular
  verify_regular-ok = rw l.at (simp (==-refl))

  pub require_exact-ok : require_exact f.signature slot fs ≡ ok tt
  unfolding require_exact
  require_exact-ok = rw l.at (simp (same_signature_refl f.signature))

module _ {f : File} {slot : Slot} {fs : Files} (l : IsLinked 1 f slot fs) where
  pub require_metadata-ok : require_metadata f.signature slot fs ≡ ok tt
  unfolding require_metadata
  require_metadata-ok = rw l.at (simp (same_signature_refl f.signature, l.count))

  pub require_authority-ok :
      require_authority f.signature.size_bytes f.signature false slot fs ≡ ok f.signature
  unfolding require_authority
  require_authority-ok = rw l.at (simp (==-refl, same_signature_refl f.signature, l.count))

  pub require_authority-renamed :
      (expected : Signature)
      → same_content f.signature expected ≡ true
      → require_authority f.signature.size_bytes expected true slot fs ≡ ok f.signature
  unfolding require_authority
  require_authority-renamed expected e = rw l.at (simp (==-refl, e, l.count))

  pub verify_and_fsync-ok :
      verify_and_fsync f.digest f.signature.size_bytes slot fs ≡ ok f.signature
  unfolding verify_and_fsync
  verify_and_fsync-ok = simp (verify_regular-ok l, require_metadata-ok)

  pub verify_renamed-ok :
      (expected : Signature)
      → same_content f.signature expected ≡ true
      → verify_renamed f.digest f.signature.size_bytes expected slot fs ≡ ok f.signature
  unfolding verify_renamed
  verify_renamed-ok expected e = simp (verify_regular-ok l, require_metadata-ok, e)

  fsync_renamed-ok :
      (expected : Signature)
      → same_content f.signature expected ≡ true
      → fsync_renamed f.digest f.signature.size_bytes expected slot fs ≡ ok tt
  unfolding fsync_renamed
  fsync_renamed-ok expected e = simp (
    verify_and_fsync-ok,
    verify_regular-ok l,
    require_metadata-ok,
    e,
    same_signature_refl f.signature,
  )

module _ {f : File} {fs : Files} (expected : Signature)
    (e : same_content f.signature expected ≡ true) where
  pub fsync_recovered_capture-ok :
      IsLinked 1 f in_quarantine fs
      → file_at in_current fs ≡ none
      → fsync_recovered_capture f.digest f.signature.size_bytes expected true fs ≡ ok tt
  unfolding fsync_recovered_capture
  fsync_recovered_capture-ok l n = simp (l.at, n, fsync_renamed-ok l expected e)

  pub fsync_recovered_install-ok :
      IsLinked 1 f in_current fs
      → file_at in_stage fs ≡ none
      → fsync_recovered_install f.digest f.signature.size_bytes expected fs ≡ ok tt
  unfolding fsync_recovered_install
  fsync_recovered_install-ok l n =
      simp (n, verify_and_fsync-ok l, verify_regular-ok l, e, same_signature_refl f.signature)

  pub verify_shared-ok :
      (src dst : Slot)
      → IsLinked 2 f src fs
      → IsLinked 2 f dst fs
      → verify_shared f.digest f.signature.size_bytes expected src dst fs ≡ ok f.signature
  unfolding verify_shared require_shared
  verify_shared-ok src dst l m = simp (
    verify_regular-ok l,
    verify_regular-ok m,
    l.at,
    m.at,
    l.count,
    e,
    same_signature_refl f.signature,
  )

  pub verify_captured-ok :
      (reuse : Bool)
      → IsLinked 1 f in_quarantine fs
      → verify_captured f.digest f.signature.size_bytes expected reuse fs ≡ ok tt
  unfolding verify_captured
  verify_captured-ok true l =
      simp (require_authority-renamed l expected e, require_metadata-ok l, e)
  verify_captured-ok false l = simp (verify_regular-ok l, require_metadata-ok l, e)

pub fsync_recovered_capture-absent :
    (fs : Files) (digest size : ℕ) (expected : Signature)
    → file_at in_current fs ≡ none
    → file_at in_quarantine fs ≡ none
    → fsync_recovered_capture digest size expected false fs ≡ ok tt
unfolding fsync_recovered_capture
fsync_recovered_capture-absent fs digest size expected c q = simp (c, q)
