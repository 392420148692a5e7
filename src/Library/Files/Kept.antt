-- ===== src/Library/Files/Kept.antt =====
-- What no run on the files of a key destroys.
use h2hdb_ingest.Prelude.{
  ℕ, Bool, true, false, ◌&&◌, ◌||◌, Option, none, some, List, Result, ok, err, ◌==◌, ◌≡◌, refl,
  arith,
}
use h2hdb_ingest.Library.Files.{
  File, Files, Slot, in_stage, in_current, in_quarantine, Error, Event, proceeds, stops_between,
  stops_after, stops_before, Run, Exec, continue, ◌>>=◌, pure, check, file_at, same_inode, touched,
  touched_at, moved, shared, without, renamed, rename_to, rename, unlinked, unlink_at, unlink,
  next_event, later_events,
}

-- the file's bytes under this name
abbrev pub is_same : File → Option File → Bool
is_same g none = false
is_same g (some h) = same_inode h g && h.digest == g.digest

-- under one of the names
abbrev pub is_kept : File → Files → Bool
is_kept g fs = is_same g fs.stage || (is_same g fs.current || is_same g fs.quarantine)

touched-is_same : (t : ℕ) (g h : File) → is_same g (some (touched t h)) ≡ is_same g (some h)
unfolding same_inode
touched-is_same t g h = refl

pub touched_at-is_same :
    (t : ℕ) (f g : File) (o : Option File) → is_same g (touched_at t f o) ≡ is_same g o
unfolding same_inode
touched_at-is_same t f g none = refl
touched_at-is_same t f g (some h) = ground arith

module _ (g : File) where
  pub record Keeps {A : Type 0} (fs : Files) (m : Exec A) : Type 0 where
    pub at :
        (es : List Event)
        → is_kept g fs ≡ true
        → is_kept g (m (record { files = fs; events = es })).1.files ≡ true

  moved-is_kept :
      (src dst : Slot) (f : File) (t : ℕ) (fs : Files)
      → file_at src fs ≡ some f
      → file_at dst fs ≡ none
      → is_kept g fs ≡ true
      → is_kept g (moved src dst f t fs) ≡ true
  moved-is_kept in_stage in_stage f t fs e e' k = absurd (cc)
  moved-is_kept in_stage in_current f t fs e e' k =
      ground (arith, e, e', k, touched-is_same t g f, touched_at-is_same t f g fs.quarantine)
  moved-is_kept in_stage in_quarantine f t fs e e' k =
      ground (arith, e, e', k, touched-is_same t g f, touched_at-is_same t f g fs.current)
  moved-is_kept in_current in_stage f t fs e e' k =
      ground (arith, e, e', k, touched-is_same t g f, touched_at-is_same t f g fs.quarantine)
  moved-is_kept in_current in_current f t fs e e' k = absurd (cc)
  moved-is_kept in_current in_quarantine f t fs e e' k =
      ground (arith, e, e', k, touched-is_same t g f, touched_at-is_same t f g fs.stage)
  moved-is_kept in_quarantine in_stage f t fs e e' k =
      ground (arith, e, e', k, touched-is_same t g f, touched_at-is_same t f g fs.current)
  moved-is_kept in_quarantine in_current f t fs e e' k =
      ground (arith, e, e', k, touched-is_same t g f, touched_at-is_same t f g fs.stage)
  moved-is_kept in_quarantine in_quarantine f t fs e e' k = absurd (cc)

  -- with both names on the disk
  shared-is_kept :
      (dst : Slot) (f : File) (t : ℕ) (fs : Files)
      → file_at dst fs ≡ none
      → is_kept g fs ≡ true
      → is_kept g (shared dst f t fs) ≡ true
  shared-is_kept in_stage f t fs e k =
      ground
        (arith, e, k, touched_at-is_same t f g fs.current, touched_at-is_same t f g fs.quarantine)
  shared-is_kept in_current f t fs e k =
      ground
        (arith, e, k, touched_at-is_same t f g fs.stage, touched_at-is_same t f g fs.quarantine)
  shared-is_kept in_quarantine f t fs e k =
      ground (arith, e, k, touched_at-is_same t f g fs.stage, touched_at-is_same t f g fs.current)

  renamed-is_kept :
      (src dst : Slot) (f : File) (es : List Event) (fs : Files) (ev : Event)
      → file_at src fs ≡ some f
      → file_at dst fs ≡ none
      → is_kept g fs ≡ true
      → is_kept g (renamed src dst f es fs ev).1.files ≡ true
  renamed-is_kept src dst f es fs (proceeds t) e e' k = moved-is_kept src dst f t fs e e' k
  renamed-is_kept src dst f es fs (stops_after t) e e' k = moved-is_kept src dst f t fs e e' k
  renamed-is_kept src dst f es fs (stops_between t) e e' k = shared-is_kept dst f t fs e' k
  renamed-is_kept src dst f es fs stops_before e e' k = k

  rename_to-is_kept :
      (src dst : Slot) (o p : Option File) (s : Run)
      → file_at src s.files ≡ o
      → file_at dst s.files ≡ p
      → is_kept g s.files ≡ true
      → is_kept g (rename_to src dst o p s).1.files ≡ true
  rename_to-is_kept src dst none p s e e' k = k
  rename_to-is_kept src dst (some f) (some h) s e e' k = k
  rename_to-is_kept src dst (some f) none s e e' k =
      renamed-is_kept src dst f (later_events s.events) s.files (next_event s.events) e e' k

  unlinked-is_kept :
      (slot : Slot) (f : File) (es : List Event) (fs : Files) (ev : Event)
      → ((t : ℕ) → is_kept g (without slot f t fs) ≡ true)
      → is_kept g fs ≡ true
      → is_kept g (unlinked slot f es fs ev).1.files ≡ true
  unlinked-is_kept slot f es fs (proceeds t) w k = w t
  unlinked-is_kept slot f es fs (stops_after t) w k = w t
  unlinked-is_kept slot f es fs (stops_between t) w k = k
  unlinked-is_kept slot f es fs stops_before w k = k

  unlink_at-is_kept :
      (slot : Slot) (o : Option File) (s : Run)
      → ((f : File) (t : ℕ) → o ≡ some f → is_kept g (without slot f t s.files) ≡ true)
      → is_kept g s.files ≡ true
      → is_kept g (unlink_at slot o s).1.files ≡ true
  unlink_at-is_kept slot none s w k = k
  unlink_at-is_kept slot (some f) s w k =
      unlinked-is_kept slot f (later_events s.events) s.files (next_event s.events)
        (λ t. w f t refl) k

  continue-is_kept :
      {A B : Type 0} (r : Result Error A) (f : A → Exec B) (s : Run)
      → is_kept g s.files ≡ true
      → ((a : A) → r ≡ ok a → Keeps s.files (f a))
      → is_kept g (continue r f s).1.files ≡ true
  continue-is_kept (ok a) f s k h = (h a refl).at s.events k
  continue-is_kept (err e) f s k h = k

  module _ {fs : Files} where
    pub Keeps-bind :
        {A B : Type 0} {m : Exec A} {f : A → Exec B}
        → Keeps fs m
        → ((a : A) (fs' : Files) → Keeps fs' (f a))
        → Keeps fs (m >>= f)
    unfolding ◌>>=◌
    Keeps-bind {m = m} {f = f} h k = record {
      at = λ es w.
          let o = m (record { files = fs; events = es }) in
          continue-is_kept o.0 f o.1 (h.at es w) (λ a _. k a o.1.files);
    }

    pub Keeps-check :
        {A B : Type 0} (c : Files → Result Error A) (f : A → Exec B)
        → ((a : A) → c fs ≡ ok a → Keeps fs (f a))
        → Keeps fs (check c >>= f)
    unfolding ◌>>=◌ check
    Keeps-check c f k = record {
      at = λ es w. continue-is_kept (c fs) f (record { files = fs; events = es }) w k;
    }

    pub Keeps-checked : {A : Type 0} (c : Files → Result Error A) → Keeps fs (check c)
    unfolding check
    Keeps-checked c = record { at = λ es w. w }

    pub Keeps-pure : {A : Type 0} (a : A) → Keeps fs (pure a)
    Keeps-pure a = record { at = λ es w. w }

    pub Keeps-rename : (src dst : Slot) → Keeps fs (rename src dst)
    unfolding rename
    Keeps-rename src dst = record {
      at = λ es w.
          rename_to-is_kept src dst (file_at src fs) (file_at dst fs)
            (record { files = fs; events = es }) refl refl w;
    }

    pub Keeps-unlink :
        (slot : Slot)
        → ((f : File) (t : ℕ)
            → file_at slot fs ≡ some f
            → is_kept g fs ≡ true
            → is_kept g (without slot f t fs) ≡ true)
        → Keeps fs (unlink slot)
    unfolding unlink
    Keeps-unlink slot k = record {
      at = λ es w.
          unlink_at-is_kept slot (file_at slot fs) (record { files = fs; events = es })
            (λ f t e. k f t e w) w;
    }
