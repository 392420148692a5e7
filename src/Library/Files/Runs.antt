-- ===== src/Library/Files/Runs.antt =====
-- What a run on the files of a key comes to: one rule for each way in which a run is built.
use h2hdb_ingest.Prelude.{
  ℕ, Bool, true, false, none, some, List, [], ◌∷◌, Result, ok, err, ◌≡◌, refl, sym, subst,
}
use h2hdb_ingest.Library.Files.{
  File, Files, Slot, Error, stopped, Event, proceeds, stops_between, stops_after, stops_before, Run,
  Exec, continue, ◌>>=◌, pure, check, file_at, shared, moved, without, renamed, rename, unlinked,
  unlink, next_event, later_events,
}

abbrev pub proceeds_all : List Event → Bool
proceeds_all [] = true
proceeds_all (proceeds t ∷ es) = proceeds_all es
proceeds_all (e ∷ es) = false

-- whether the process lives on to the end
abbrev IsSteady : Bool → List Event → Type 0
IsSteady true es = proceeds_all es ≡ true
IsSteady false es = Unit

-- A run that returns has `Q`. It raises only where the process ends, which leaves files with `E`.
abbrev pub Ends :
    {A : Type 0} → Bool → (Files → Type 0) → (A → Files → Type 0) → Result Error A × Run → Type 0
Ends steady E Q (ok a, s) = IsSteady steady s.events × Q a s.files
Ends steady E Q (err e, s) = (e ≡ stopped) × (steady ≡ false) × E s.files

pub record Runs {A : Type 0} (steady : Bool) (E : Files → Type 0) (fs : Files)
    (Q : A → Files → Type 0) (m : Exec A) : Type 0 where
  pub at :
      (es : List Event)
      → IsSteady steady es
      → Ends steady E Q (m (record { files = fs; events = es }))

ends_now :
    (steady : Bool) (es : List Event)
    → proceeds_all es ≡ false
    → IsSteady steady es
    → steady ≡ false
ends_now true es e h = cc
ends_now false es e h = refl

IsSteady-tail :
    (steady : Bool) (t : ℕ) (es : List Event)
    → IsSteady steady (proceeds t ∷ es)
    → IsSteady steady es
IsSteady-tail true t es h = h
IsSteady-tail false t es h = tt

IsSteady-nil : (steady : Bool) → IsSteady steady []
IsSteady-nil true = refl
IsSteady-nil false = tt

module _ (steady : Bool) (E : Files → Type 0) where
  continue-Ends :
      {A B : Type 0} {R : A → Files → Type 0} (Q : B → Files → Type 0) (r : Result Error A)
      (f : A → Exec B) (s : Run)
      → Ends steady E R (r, s)
      → ((a : A) (fs : Files) → R a fs → Runs steady E fs Q (f a))
      → Ends steady E Q (continue r f s)
  continue-Ends Q (ok a) f s h k = (k a s.files h.1).at s.events h.0
  continue-Ends Q (err e) f s h k = h

  checked-Ends :
      {A B : Type 0} (Q : B → Files → Type 0) (r : Result Error A) (a : A) (f : A → Exec B)
      (fs : Files) (es : List Event)
      → IsSteady steady es
      → r ≡ ok a
      → Runs steady E fs Q (f a)
      → Ends steady E Q (continue r f (record { files = fs; events = es }))
  checked-Ends Q r a f fs es h e k =
      subst (λ x. Ends steady E Q (continue x f (record { files = fs; events = es }))) (sym e)
        (k.at es h)

  -- what the process leaves if it ends in a rename
  pub record RenameStops (src dst : Slot) (f : File) (fs : Files) : Type 0 where
    pub before : E fs
    pub between : (t : ℕ) → E (shared dst f t fs)
    pub after : (t : ℕ) → E (moved src dst f t fs)

  pub record UnlinkStops (slot : Slot) (f : File) (fs : Files) : Type 0 where
    pub before : E fs
    pub after : (t : ℕ) → E (without slot f t fs)

  renamed-Ends :
      (src dst : Slot) (f : File) (fs : Files) (Q : Unit {0} → Files → Type 0)
      → RenameStops src dst f fs
      → ((t : ℕ) → Q tt (moved src dst f t fs))
      → (es : List Event) → IsSteady steady es
      → Ends steady E Q (renamed src dst f (later_events es) fs (next_event es))
  renamed-Ends src dst f fs Q k q [] h = (IsSteady-nil steady, q 0)
  renamed-Ends src dst f fs Q k q (proceeds t ∷ es) h = (IsSteady-tail steady t es h, q t)
  renamed-Ends src dst f fs Q k q (stops_after t ∷ es) h =
      (refl, ends_now steady (stops_after t ∷ es) refl h, k.after t)
  renamed-Ends src dst f fs Q k q (stops_between t ∷ es) h =
      (refl, ends_now steady (stops_between t ∷ es) refl h, k.between t)
  renamed-Ends src dst f fs Q k q (stops_before ∷ es) h =
      (refl, ends_now steady (stops_before ∷ es) refl h, k.before)

  unlinked-Ends :
      (slot : Slot) (f : File) (fs : Files) (Q : Unit {0} → Files → Type 0)
      → UnlinkStops slot f fs
      → ((t : ℕ) → Q tt (without slot f t fs))
      → (es : List Event) → IsSteady steady es
      → Ends steady E Q (unlinked slot f (later_events es) fs (next_event es))
  unlinked-Ends slot f fs Q k q [] h = (IsSteady-nil steady, q 0)
  unlinked-Ends slot f fs Q k q (proceeds t ∷ es) h = (IsSteady-tail steady t es h, q t)
  unlinked-Ends slot f fs Q k q (stops_after t ∷ es) h =
      (refl, ends_now steady (stops_after t ∷ es) refl h, k.after t)
  unlinked-Ends slot f fs Q k q (stops_between t ∷ es) h =
      (refl, ends_now steady (stops_between t ∷ es) refl h, k.before)
  unlinked-Ends slot f fs Q k q (stops_before ∷ es) h =
      (refl, ends_now steady (stops_before ∷ es) refl h, k.before)

-- how the rules follow each other
module _ {steady : Bool} {E : Files → Type 0} {fs : Files} where
  pub Runs-bind :
      {A B : Type 0} {R : A → Files → Type 0} {Q : B → Files → Type 0} {m : Exec A} {f : A → Exec B}
      → Runs steady E fs R m
      → ((a : A) (fs' : Files) → R a fs' → Runs steady E fs' Q (f a))
      → Runs steady E fs Q (m >>= f)
  unfolding ◌>>=◌
  Runs-bind {R = R} {Q = Q} {m = m} {f = f} h k = record {
    at = λ es w.
        let o = m (record { files = fs; events = es }) in
        continue-Ends steady E {R = R} Q o.0 f o.1 (h.at es w) k;
  }

  pub Runs-pure :
      {A : Type 0} {Q : A → Files → Type 0} (a : A) → Q a fs → Runs steady E fs Q (pure a)
  Runs-pure a q = record { at = λ es w. (w, q) }

  -- a check that passes, and what follows it
  pub Runs-check :
      {A B : Type 0} {Q : B → Files → Type 0} {a : A} (c : Files → Result Error A) (f : A → Exec B)
      → c fs ≡ ok a
      → Runs steady E fs Q (f a)
      → Runs steady E fs Q (check c >>= f)
  unfolding ◌>>=◌ check
  Runs-check {Q = Q} {a = a} c f e k = record {
    at = λ es w. checked-Ends steady E Q (c fs) a f fs es w e k;
  }

  pub Runs-checked :
      {A : Type 0} {Q : A → Files → Type 0} {a : A} (c : Files → Result Error A)
      → c fs ≡ ok a
      → Q a fs
      → Runs steady E fs Q (check c)
  unfolding check
  Runs-checked {Q = Q} {a = a} c e q = record {
    at =
        λ es w. subst (λ x. Ends steady E Q (x, record { files = fs; events = es })) (sym e) (w, q);
  }

  Runs-rename :
      (src dst : Slot) {f : File} {Q : Unit {0} → Files → Type 0}
      → file_at src fs ≡ some f
      → file_at dst fs ≡ none
      → RenameStops steady E src dst f fs
      → ((t : ℕ) → Q tt (moved src dst f t fs))
      → Runs steady E fs Q (rename src dst)
  unfolding rename
  Runs-rename src dst {f = f} {Q = Q} e e' k q = record {
    at = λ es w. rw (e, e') (renamed-Ends steady E src dst f fs Q k q es w);
  }

  pub Runs-unlink :
      (slot : Slot) {f : File} {Q : Unit {0} → Files → Type 0}
      → file_at slot fs ≡ some f
      → UnlinkStops steady E slot f fs
      → ((t : ℕ) → Q tt (without slot f t fs))
      → Runs steady E fs Q (unlink slot)
  unfolding unlink
  Runs-unlink slot {f = f} {Q = Q} e k q = record {
    at = λ es w. rw e (unlinked-Ends steady E slot f fs Q k q es w);
  }

  -- a rename, and what follows where it is done
  pub Runs-renaming :
      {B : Type 0} {Q : B → Files → Type 0} (src dst : Slot) {f : File} (m : Unit {0} → Exec B)
      → file_at src fs ≡ some f
      → file_at dst fs ≡ none
      → RenameStops steady E src dst f fs
      → ((t : ℕ) → Runs steady E (moved src dst f t fs) Q (m tt))
      → Runs steady E fs Q (rename src dst >>= m)
  Runs-renaming {Q = Q} src dst {f = f} m e e' k h =
      Runs-bind {R = λ _ fs'. (t : ℕ) × (fs' ≡ moved src dst f t fs)}
        (Runs-rename src dst e e' k (λ t. (t, refl)))
        (λ _ fs' (t, p). subst (λ x. Runs steady E x Q (m tt)) (sym p) (h t))

  pub Runs-unlinking :
      {B : Type 0} {Q : B → Files → Type 0} (slot : Slot) {f : File} (m : Unit {0} → Exec B)
      → file_at slot fs ≡ some f
      → UnlinkStops steady E slot f fs
      → ((t : ℕ) → Runs steady E (without slot f t fs) Q (m tt))
      → Runs steady E fs Q (unlink slot >>= m)
  Runs-unlinking {Q = Q} slot {f = f} m e k h =
      Runs-bind {R = λ _ fs'. (t : ℕ) × (fs' ≡ without slot f t fs)}
        (Runs-unlink slot e k (λ t. (t, refl)))
        (λ _ fs' (t, p). subst (λ x. Runs steady E x Q (m tt)) (sym p) (h t))
