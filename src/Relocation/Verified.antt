-- ===== src/Relocation/Verified.antt =====
-- What a resolution binds: files that were read in this pass, with the content of their rows.
use h2hdb_ingest.Prelude.{
  ℕ, Bool, true, false, ◌&&◌, Option, none, some, List, [], ◌∷◌, ◌++◌, Result, ok, err, ◌≡◌, refl,
  sym, subst, All, arith,
}
use h2hdb_ingest.Library.Tables.{CurrentEntry, PendingEntry, PendingRemoval}
use h2hdb_ingest.Library.Files.{File}
use h2hdb_ingest.Relocation.{
  Place, Error, Observed, Group, Binding, matches, require, Reader, ◌>>=◌, observe, seen,
}
use h2hdb_ingest.Relocation.Resolve.{destination_by, destination_of, locate}
use h2hdb_ingest.Relocation.Bind.{
  bind_current, bind_pending, bind_removal, bind_activated, pending_binding, removal_binding,
}
use h2hdb_ingest.Relocation.Rows.{Stage}

-- The file of the binding was read at its place, and has the size and the digest of the row.
pub record IsVerified (read : Reader) (size : ℕ) (b : Binding) : Type 0 where
  pub file : File
  pub at : read b.destination.place size ≡ ok (some file)
  pub has_digest : file.digest ≡ b.digest
  pub has_size : file.signature.size_bytes ≡ b.size_bytes
  pub found : b.destination.found ≡ some file

pub record IsSeen (read : Reader) (size : ℕ) (o : Observed) : Type 0 where
  pub at : read o.place size ≡ ok o.found

-- an observation with the content of a row
pub record IsMatched (read : Reader) (size digest bytes : ℕ) (o : Observed) : Type 0 where
  pub file : File
  pub at : read o.place size ≡ ok (some file)
  pub found : o.found ≡ some file
  pub has_digest : file.digest ≡ digest
  pub has_size : file.signature.size_bytes ≡ bytes

pub returned :
    {A B : Type 0} (r : Result Error A) (f : A → Result Error B) {b : B}
    → r >>= f ≡ ok b
    → (a : A) × (r ≡ ok a) × (f a ≡ ok b)
unfolding ◌>>=◌
returned (ok a) f e = (a, refl, e)
returned (err x) f e = absurd (cc)

pub required : (b : Bool) (x : Error) {u : Unit {0}} → require b x ≡ ok u → b ≡ true
unfolding require
required true x e = refl
required false x e = absurd (cc)

pub value : {A : Type 0} (a b : A) → ◌≡◌ {A = Result Error A} (ok a) (ok b) → a ≡ b
value a b e = cc

pub matched :
    (read : Reader) (size : ℕ) (o : Observed) (digest bytes : ℕ) (f : Option File)
    → o.found ≡ f
    → IsSeen read size o
    → matches f digest bytes ≡ true
    → IsMatched read size digest bytes o
matched read size o digest bytes none e s m = absurd (cc)
matched read size o digest bytes (some f) e s m = record {
  file = f;
  at = rw (sym e) s.at;
  found = e;
  has_digest = ground (arith, m);
  has_size = ground (arith, m);
}

seen_value :
    (read : Reader) (p : Place) (size : ℕ) (r : Result Error (Option File)) (o : Observed)
    → read p size ≡ r
    → seen p r ≡ ok o
    → IsSeen read size o
seen_value read p size (ok f) o e h =
    subst (IsSeen read size) (value (record { place = p; found = f }) o h) (record { at = e })
seen_value read p size (err x) o e h = absurd (cc)

pub observe-IsSeen :
    (read : Reader) (p : Place) (size : ℕ) (o : Observed)
    → observe read p size ≡ ok o
    → IsSeen read size o
unfolding observe
observe-IsSeen read p size o h = seen_value read p size (read p size) o refl h

pub verified :
    (read : Reader) (size : ℕ) (b : Binding)
    → IsMatched read size b.digest b.size_bytes b.destination
    → IsVerified read size b
verified read size b m = record {
  file = m.file;
  at = m.at;
  has_digest = m.has_digest;
  has_size = m.has_size;
  found = m.found;
}

pub both_left : (a b : Bool) → a && b ≡ true → a ≡ true
both_left true b e = refl
both_left false b e = absurd (cc)

pub both_right : (a b : Bool) → a && b ≡ true → b ≡ true
both_right true b e = e
both_right false b e = absurd (cc)

pub All_append :
    {A : Type 0} (P : A → Type 0) (xs ys : List A) → All P xs → All P ys → All P (xs ++ ys)
All_append P [] ys p q = q
All_append P (x ∷ xs) ys p q = (p.0, All_append P xs ys p.1 q)

module _ (read : Reader) (size : ℕ) where
  -- the file of a current entry
  abbrev pub LocatedAs : CurrentEntry → Option Observed → Type 0
  LocatedAs c none = Unit
  LocatedAs c (some d) =
      IsSeen read size d × IsMatched read size c.artifact.digest c.artifact.size_bytes d

  located :
      (c : CurrentEntry) (o : Observed) (d : Option Observed)
      → IsSeen read size o
      → matches o.found c.artifact.digest c.artifact.size_bytes ≡ true
      → ◌≡◌ {A = Result Error (Option Observed)} (ok (some o)) (ok d)
      → LocatedAs c d
  located c o d s m e =
      subst (LocatedAs c) (value (some o) d e)
        (s, matched read size o c.artifact.digest c.artifact.size_bytes o.found refl s m)

  gone :
      (c : CurrentEntry) (d : Option Observed)
      → ◌≡◌ {A = Result Error (Option Observed)} (ok none) (ok d)
      → LocatedAs c d
  gone c d e = subst (LocatedAs c) (value none d e) tt

  destination_by-LocatedAs :
      (g : Group) (c : CurrentEntry) (visible quarantine : Observed) (s : Option Stage)
      (captured kept replayed : Bool) (d : Option Observed)
      → IsSeen read size visible
      → IsSeen read size quarantine
      → destination_by g c visible quarantine s captured kept replayed ≡ ok d
      → LocatedAs c d
  destination_by-LocatedAs g c visible quarantine s true kept replayed d v q e =
      let (u, m, h) = returned _ _ e in
      let (u', m', k) = returned _ _ h in
      located c quarantine d q (both_left _ _ (required _ _ m)) k
  destination_by-LocatedAs g c visible quarantine s false true replayed d v q e =
      let (u, m, k) = returned _ _ e in located c visible d v (required _ _ m) k
  destination_by-LocatedAs g c visible quarantine s false false true d v q e =
      let (u, m, k) = returned _ _ e in gone c d k
  destination_by-LocatedAs g c visible quarantine s false false false d v q e =
      let (u, m, k) = returned _ _ e in gone c d k

  pub locate-LocatedAs :
      (g : Group) (visible : Observed) (s : Option Stage) (c : CurrentEntry) (q d : Option Observed)
      → IsSeen read size visible
      → ((o : Observed) → q ≡ some o → IsSeen read size o)
      → locate g visible s (some c) q ≡ ok d
      → LocatedAs c d
  unfolding locate destination_of
  locate-LocatedAs g visible s c none d v q e = gone c d e
  locate-LocatedAs g visible s c (some o) d v q e =
      destination_by-LocatedAs g c visible o s _ _ _ d v (q o refl) e

  pub current-AreVerified :
      (c : CurrentEntry) (d : Option Observed)
      → LocatedAs c d
      → All (IsVerified read size) (bind_current (some c) d)
  current-AreVerified c none l = tt
  current-AreVerified c (some d) l = (verified read size _ l.1, tt)

  activated-AreVerified :
      (p : PendingEntry) (visible : Observed) (activated : Bool) (bs : List Binding)
      → IsSeen read size visible
      → bind_activated p visible activated ≡ ok bs
      → All (IsVerified read size) bs
  activated-AreVerified p visible true bs v e =
      let (u, m, k) = returned _ _ e in
      subst (All (IsVerified read size)) (value (pending_binding p visible ∷ []) bs k) (
        verified read size (pending_binding p visible) (
            matched read size visible p.artifact.digest p.artifact.size_bytes visible.found refl v
              (required _ _ m)),
        tt,
      )
  activated-AreVerified p visible false bs v e =
      subst (All (IsVerified read size)) (value [] bs e) tt

  pub bind_pending-AreVerified :
      (p : Option PendingEntry) (visible : Observed) (bs : List Binding)
      → IsSeen read size visible
      → bind_pending p visible ≡ ok bs
      → All (IsVerified read size) bs
  unfolding bind_pending
  bind_pending-AreVerified none visible bs v e =
      subst (All (IsVerified read size)) (value [] bs e) tt
  bind_pending-AreVerified (some p) visible bs v e =
      let (u, m, h) = returned _ _ e in activated-AreVerified p visible p.activated bs v h

  pub bind_removal-AreVerified :
      (r : Option PendingRemoval) (d : Option Observed) (bs : List Binding)
      → ((o : Observed) → d ≡ some o → IsSeen read size o)
      → bind_removal r d ≡ ok bs
      → All (IsVerified read size) bs
  unfolding bind_removal
  bind_removal-AreVerified none d bs v e = subst (All (IsVerified read size)) (value [] bs e) tt
  bind_removal-AreVerified (some r) none bs v e =
      subst (All (IsVerified read size)) (value [] bs e) tt
  bind_removal-AreVerified (some r) (some d) bs v e =
      let (u, m, k) = returned _ _ e in
      subst (All (IsVerified read size)) (value (removal_binding r d ∷ []) bs k) (
        verified read size (removal_binding r d) (
            matched read size d r.artifact.digest r.artifact.size_bytes d.found refl (v d refl)
              (required _ _ m)),
        tt,
      )
