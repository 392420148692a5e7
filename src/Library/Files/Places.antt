-- ===== src/Library/Files/Places.antt =====
-- Where the names of two files stand, and what a rename or an unlink of one makes of them.
use h2hdb_ingest.Prelude.{ℕ, Bool, false, Option, none, some, ◌≡◌, refl, arith}
use h2hdb_ingest.Library.Files.{
  File, Files, in_stage, in_current, in_quarantine, same_inode, touched, touched_at, moved, shared,
  without,
}
use h2hdb_ingest.Library.Files.Checks.{link_at, links}
use h2hdb_ingest.Library.Files.Reads.{IsLinked, same_inode_refl}

abbrev pub files_of : Option File → Option File → Option File → Files
files_of s c q = record { stage = s; current = c; quarantine = q }

abbrev pub same_at : File → Option File → Bool
same_at f none = false
same_at f (some g) = same_inode f g

pub same_inode-touched : (t : ℕ) (f g : File) → same_inode f (touched t g) ≡ same_inode f g
unfolding same_inode
same_inode-touched t f g = refl

pub touched-same_at : (t : ℕ) (f : File) (g : Option File) → same_at (touched t f) g ≡ same_at f g
unfolding same_inode
touched-same_at t f none = refl
touched-same_at t f (some g) = refl

pub same_inode-sym : (f g : File) → same_inode f g ≡ same_inode g f
unfolding same_inode
same_inode-sym f g = ground arith

touched_at-apart : (t : ℕ) (f : File) (g : Option File) → same_at f g ≡ false → touched_at t f g ≡ g
touched_at-apart t f none e = refl
touched_at-apart t f (some g) e = simp e

link_at-apart : (f : File) (g : Option File) → same_at f g ≡ false → link_at f g ≡ 0
link_at-apart f none e = refl
link_at-apart f (some g) e = simp e

link_at_self : (f : File) → link_at f (some f) ≡ 1
link_at_self f = simp (same_inode_refl)

touched_at_self : (t : ℕ) (f : File) → touched_at t f (some f) ≡ some (touched t f)
touched_at_self t f = simp (same_inode_refl)

module _ {f : File} where
  pub in_quarantine-IsLinked :
      {s c : Option File}
      → same_at f s ≡ false
      → same_at f c ≡ false
      → IsLinked 1 f in_quarantine (files_of s c (some f))
  unfolding links
  in_quarantine-IsLinked {s = s} {c = c} a b = record {
    at = refl;
    count = rw (link_at-apart f s a, link_at-apart f c b, link_at_self f) refl;
  }

  pub in_current-IsLinked :
      {s q : Option File}
      → same_at f s ≡ false
      → same_at f q ≡ false
      → IsLinked 1 f in_current (files_of s (some f) q)
  unfolding links
  in_current-IsLinked {s = s} {q = q} a b = record {
    at = refl;
    count = rw (link_at-apart f s a, link_at-apart f q b, link_at_self f) refl;
  }

  pub in_stage-IsLinked :
      {c q : Option File}
      → same_at f c ≡ false
      → same_at f q ≡ false
      → IsLinked 1 f in_stage (files_of (some f) c q)
  unfolding links
  in_stage-IsLinked {c = c} {q = q} a b = record {
    at = refl;
    count = rw (link_at-apart f c a, link_at-apart f q b, link_at_self f) refl;
  }

pub captured-count :
    (f : File) (s : Option File) → same_at f s ≡ false → links f (files_of s (some f) (some f)) ≡ 2
unfolding links
captured-count f s a = rw (link_at-apart f s a, link_at_self f) refl

pub installed-count :
    (f : File) (q : Option File) → same_at f q ≡ false → links f (files_of (some f) (some f) q) ≡ 2
unfolding links
installed-count f q a = rw (link_at-apart f q a, link_at_self f) refl

module _ (t : ℕ) (f : File) where
  pub moved-capture :
      (s : Option File)
      → same_at f s ≡ false
      → moved in_current in_quarantine f t (files_of s (some f) none)
        ≡ files_of s none (some (touched t f))
  moved-capture s a = rw (touched_at-apart t f s a) refl

  pub shared-capture :
      (s : Option File)
      → same_at f s ≡ false
      → shared in_quarantine f t (files_of s (some f) none)
        ≡ files_of s (some (touched t f)) (some (touched t f))
  shared-capture s a = rw (touched_at-apart t f s a, touched_at_self t f) refl

  pub without-capture :
      (s : Option File)
      → same_at f s ≡ false
      → without in_current f t (files_of s (some f) (some f)) ≡ files_of s none (some (touched t f))
  without-capture s a = rw (touched_at-apart t f s a, touched_at_self t f) refl

  pub moved-install :
      (q : Option File)
      → same_at f q ≡ false
      → moved in_stage in_current f t (files_of (some f) none q)
        ≡ files_of none (some (touched t f)) q
  moved-install q a = rw (touched_at-apart t f q a) refl

  pub shared-install :
      (q : Option File)
      → same_at f q ≡ false
      → shared in_current f t (files_of (some f) none q)
        ≡ files_of (some (touched t f)) (some (touched t f)) q
  shared-install q a = rw (touched_at-apart t f q a, touched_at_self t f) refl

  pub without-install :
      (q : Option File)
      → same_at f q ≡ false
      → without in_stage f t (files_of (some f) (some f) q) ≡ files_of none (some (touched t f)) q
  without-install q a = rw (touched_at-apart t f q a, touched_at_self t f) refl

  pub without-retired :
      (s c : Option File)
      → same_at f s ≡ false
      → same_at f c ≡ false
      → without in_quarantine f t (files_of s c (some f)) ≡ files_of s c none
  without-retired s c a b = rw (touched_at-apart t f s a, touched_at-apart t f c b) refl
