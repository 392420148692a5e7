-- ===== src/Relocation/Resolved.antt =====
-- Every row that a resolution binds has a file that was read in this pass, with the row's content.
use h2hdb_ingest.Prelude.{
  ℕ, Bool, true, false, not, ◌&&◌, ◌||◌, Option, none, some, List, [], ◌++◌, Result, ok, ◌≡◌, refl,
  ap, subst, ◌∙◌, All,
}
use h2hdb_ingest.Library.Tables.{CurrentEntry, PendingEntry}
use h2hdb_ingest.Library.State.{Token}
use h2hdb_ingest.Relocation.{
  at_current, at_quarantine, at_stage, at_temporary, Error, Observed, Group, Binding, Reader,
  observe,
}
use h2hdb_ingest.Relocation.Resolve.{
  observe_stage, observe_quarantine, is_replayed, locate, resolve, Reading, read_files, bind_rows,
}
use h2hdb_ingest.Relocation.Bind.{
  bind_current, bind_token, bind_stage, token_destination, check_bindings, bind_pending,
  bind_removal,
}
use h2hdb_ingest.Relocation.Rows.{maximum, Stage, check_token, check_rows}
use h2hdb_ingest.Relocation.Verified.{
  IsVerified, IsSeen, LocatedAs, returned, required, value, both_right, All_append, observe-IsSeen,
  locate-LocatedAs, current-AreVerified, bind_pending-AreVerified, bind_removal-AreVerified,
}
use h2hdb_ingest.Relocation.Stages.{IsChecked, stage-AreVerified}

unless : (a m : Bool) → not a || m ≡ true → a ≡ true → m ≡ true
unless true m e h = e
unless false m e h = absurd (cc)

whole_or : (w i m : Bool) → (w && not i) || m ≡ true → i ≡ true → m ≡ true
whole_or true true m e h = e
whole_or false true m e h = e
whole_or w false m e h = absurd (cc)

same_some : {A : Type 0} (x y : A) → some x ≡ some y → x ≡ y
same_some x y p = cc

none-some : {A : Type 0} (x : A) → none ≡ some x → ⊥
none-some x p = cc

module _ (read : Reader) (size : ℕ) where
  check_token-IsChecked :
      (t : Token) (stage temporary : Observed) (u : Unit {0})
      → IsSeen read size stage
      → IsSeen read size temporary
      → check_token t stage.found temporary.found ≡ ok u
      → IsChecked read size (record { token = t; stage = stage; temporary = temporary })
  unfolding check_token
  check_token-IsChecked t stage temporary u a b e =
      let (u1, m1, h1) = returned _ _ e in
      let (u2, m2, h2) = returned _ _ h1 in
      let (u3, m3, h3) = returned _ _ h2 in
      record {
        stage_seen = a;
        temporary_seen = b;
        sealed = unless _ _ (required _ _ m2);
        whole = λ p q. whole_or _ _ _ (both_right _ _ (unless _ _ (required _ _ m3) p)) q;
      }

  observe_stage-IsChecked :
      (t : Option Token) (s : Stage)
      → observe_stage read size t ≡ ok (some s)
      → IsChecked read size s
  unfolding observe_stage
  observe_stage-IsChecked none s e = absurd (cc)
  observe_stage-IsChecked (some t) s e =
      let (u1, m1, h1) = returned _ _ e in
      let (stage, m2, h2) = returned _ _ h1 in
      let (temporary, m3, h3) = returned _ _ h2 in
      let (u4, m4, h4) = returned _ _ h3 in
      subst (IsChecked read size)
        (same_some (record { token = t; stage = stage; temporary = temporary }) s (value _ _ h4))
        (check_token-IsChecked t stage temporary u4
          (observe-IsSeen read (at_stage t.token) size stage m2)
          (observe-IsSeen read (at_temporary t.token) size temporary m3) m4)

  observe_quarantine-IsSeen :
      (c : Option CurrentEntry) (q : Option Observed) (o : Observed)
      → observe_quarantine read size c ≡ ok q
      → q ≡ some o
      → IsSeen read size o
  unfolding observe_quarantine
  observe_quarantine-IsSeen none q o e h = absurd (none-some o (value none q e ∙ h))
  observe_quarantine-IsSeen (some c) q o e h =
      let (x, m, k) = returned _ _ e in
      subst (IsSeen read size) (same_some x o (value (some x) q k ∙ h))
        (observe-IsSeen read (at_quarantine c.artifact.digest) size x m)

  bind_token-AreVerified :
      (p : Option PendingEntry) (visible : Observed) (s : Option Stage) (bs : List Binding)
      → IsSeen read size visible
      → ((x : Stage) → s ≡ some x → IsChecked read size x)
      → bind_token s visible (is_replayed p visible s) ≡ ok bs
      → All (IsVerified read size) bs
  unfolding bind_token
  bind_token-AreVerified p visible none bs v c e =
      subst (All (IsVerified read size)) (value [] bs e) tt
  bind_token-AreVerified p visible (some s) bs v c e =
      let (u1, m1, h1) = returned _ _ e in
      let (u2, m2, h2) = returned _ _ h1 in
      subst (All (IsVerified read size))
        (value (bind_stage s (token_destination s visible (is_replayed p visible (some s)))) bs h2)
        (stage-AreVerified read size p visible s (is_replayed p visible (some s)) v (c s refl) refl)

  LocatedAs-IsSeen :
      (c : CurrentEntry) (d : Option Observed) (o : Observed)
      → LocatedAs read size c d
      → d ≡ some o
      → IsSeen read size o
  LocatedAs-IsSeen c none o l p = absurd (none-some o p)
  LocatedAs-IsSeen c (some d) o l p = subst (IsSeen read size) (same_some d o p) l.0

  located-AreVerified :
      (g : Group) (visible : Observed) (s : Option Stage) (c : Option CurrentEntry)
      (q d : Option Observed)
      → IsSeen read size visible
      → ((o : Observed) → q ≡ some o → IsSeen read size o)
      → locate g visible s c q ≡ ok d
      → All (IsVerified read size) (bind_current c d)
        × ((o : Observed) → d ≡ some o → IsSeen read size o)
  unfolding locate
  located-AreVerified g visible s none q d v h e =
      (tt, λ o p. absurd (none-some o (value none d e ∙ p)))
  located-AreVerified g visible s (some c) q d v h e =
      let l : LocatedAs read size c d = locate-LocatedAs read size g visible s c q d v h e in
      (current-AreVerified read size c d l, λ o p. LocatedAs-IsSeen c d o l p)

second :
    {A B : Type 0} (a c : A) (b d : B)
    → ◌≡◌ {A = Result Error (A × B)} (ok (a, b)) (ok (c, d))
    → b ≡ d
second {A} {B} a c b d p = ap (λ (x : A × B). x.1) (value (a, b) (c, d) p)

-- the files that were read, and what they are known to hold
record IsRead (read : Reader) (g : Group) (r : Reading) : Type 0 where
  pub visible_seen : IsSeen read (maximum g) r.visible
  pub stage_checked : (s : Stage) → r.stage ≡ some s → IsChecked read (maximum g) s
  pub current_verified : All (IsVerified read (maximum g)) (bind_current g.current r.destination)
  pub destination_seen : (o : Observed) → r.destination ≡ some o → IsSeen read (maximum g) o

read_files-IsRead :
    (read : Reader) (g : Group) (r : Reading) → read_files read g ≡ ok r → IsRead read g r
unfolding read_files
read_files-IsRead read g r e =
    let (visible, m2, h2) = returned (observe read at_current (maximum g)) _ e in
    let (quarantine, m3, h3) = returned (observe_quarantine read (maximum g) g.current) _ h2 in
    let (stage, m4, h4) = returned (observe_stage read (maximum g) g.token) _ h3 in
    let (destination, m5, h5) = returned (locate g visible stage g.current quarantine) _ h4 in
    let v = observe-IsSeen read at_current (maximum g) visible m2 in
    let (c, d) =
      located-AreVerified read (maximum g) g visible stage g.current quarantine destination v
        (λ o p. observe_quarantine-IsSeen read (maximum g) g.current quarantine o m3 p) m5 in
    subst (IsRead read g)
      (value
        (record {
          visible = visible;
          quarantine = quarantine;
          stage = stage;
          destination = destination;
        })
        r h5)
      (record {
        visible_seen = v;
        stage_checked = λ s p. observe_stage-IsChecked read (maximum g) g.token s (m4 ∙ ap ok p);
        current_verified = c;
        destination_seen = d;
      })

bind_rows-AreVerified :
    (read : Reader) (g : Group) (r : Reading) (bs : List Binding)
    → IsRead read g r
    → bind_rows g r ≡ ok bs
    → All (IsVerified read (maximum g)) bs
unfolding bind_rows
bind_rows-AreVerified read g r bs k e =
    let (u, m6, h6) = returned _ _ e in
    let (tokens, m7, h7) =
      returned (bind_token r.stage r.visible (is_replayed g.pending r.visible r.stage)) _ h6 in
    let (pending, m8, h8) = returned (bind_pending g.pending r.visible) _ h7 in
    let (removal, m9, h9) = returned (bind_removal g.removal r.destination) _ h8 in
    let P : Binding → Type 0 = IsVerified read (maximum g) in
    subst (All P)
      (value (bind_current g.current r.destination ++ (tokens ++ (pending ++ removal))) bs h9)
      (All_append P (bind_current g.current r.destination) (tokens ++ (pending ++ removal))
        k.current_verified
        (All_append P tokens (pending ++ removal)
          (bind_token-AreVerified read (maximum g) g.pending r.visible r.stage tokens k.visible_seen
            k.stage_checked m7)
          (All_append P pending removal
            (bind_pending-AreVerified read (maximum g) g.pending r.visible pending k.visible_seen
              m8)
            (bind_removal-AreVerified read (maximum g) g.removal r.destination removal
              k.destination_seen m9))))

-- If the resolution of a storage path returns, each row that it binds to a file has the size and the
-- digest of that file, which was read at its place in this pass: a saved signature is replaced only
-- by that of a file with the row's bytes.
pub resolve-AreVerified :
    (read : Reader) (g : Group) (os : List Observed) (bs : List Binding)
    → resolve read g ≡ ok (os, bs)
    → All (IsVerified read (maximum g)) bs
unfolding resolve
resolve-AreVerified read g os bs e =
    let (u1, m1, h1) = returned (check_rows g) _ e in
    let (r, m2, h2) = returned (read_files read g) _ h1 in
    let (bs', m3, h3) = returned (bind_rows g r) _ h2 in
    let (u4, m4, h4) = returned (check_bindings [] bs') _ h3 in
    subst (All (IsVerified read (maximum g))) (second _ os bs' bs h4)
      (bind_rows-AreVerified read g r bs' (read_files-IsRead read g r m2) m3)
