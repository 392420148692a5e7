-- ===== src/Relocation/Stages.antt =====
-- The binding of a token is to a file with the token's content.
use h2hdb_ingest.Prelude.{ℕ, Bool, true, false, not, Option, some, [], ◌∷◌, ◌≡◌, refl, is_some, All}
use h2hdb_ingest.Library.Tables.{PendingEntry}
use h2hdb_ingest.Relocation.{Observed, matches, Reader}
use h2hdb_ingest.Relocation.Resolve.{is_replayed, replays}
use h2hdb_ingest.Relocation.Bind.{bind_stage, bind_stage_by, token_destination, token_binding}
use h2hdb_ingest.Relocation.Rows.{Stage, is_staged}
use h2hdb_ingest.Relocation.Verified.{IsVerified, IsSeen, matched, verified, both_left, both_right}

module _ (read : Reader) (size : ℕ) where
  -- the files of a token that has passed its checks
  pub record IsChecked (s : Stage) : Type 0 where
    pub stage_seen : IsSeen read size s.stage
    pub temporary_seen : IsSeen read size s.temporary
    pub sealed :
        is_some s.stage.found ≡ true
        → matches s.stage.found s.token.digest s.token.size_bytes ≡ true
    pub whole :
        is_some s.temporary.found ≡ true
        → is_some s.token.identity ≡ true
        → matches s.temporary.found s.token.digest s.token.size_bytes ≡ true

  is_replayed-matches :
      (p : Option PendingEntry) (visible : Observed) (s : Stage)
      → is_replayed p visible (some s) ≡ true
      → matches visible.found s.token.digest s.token.size_bytes ≡ true
  unfolding is_replayed
  is_replayed-matches p visible s e = both_right (replays p s.token) _ (
      both_right (not (is_some s.temporary.found)) _
        (both_right (not (is_some s.stage.found)) _ (both_right (is_staged s.token.state) _ e)))

  token_matched :
      (s : Stage) (d : Observed)
      → IsSeen read size d
      → matches d.found s.token.digest s.token.size_bytes ≡ true
      → All (IsVerified read size) (token_binding s.token d ∷ [])
  token_matched s d v m = (
    verified read size (token_binding s.token d)
        (matched read size d s.token.digest s.token.size_bytes d.found refl v m),
    tt,
  )

  stage_by-AreVerified :
      (s : Stage) (d : Observed) (bound kept : Bool)
      → IsChecked s
      → IsSeen read size d
      → (bound ≡ true → matches d.found s.token.digest s.token.size_bytes ≡ true)
      → (kept ≡ true → matches s.temporary.found s.token.digest s.token.size_bytes ≡ true)
      → All (IsVerified read size) (bind_stage_by s d bound kept)
  stage_by-AreVerified s d true kept c v m k = token_matched s d v (m refl)
  stage_by-AreVerified s d false true c v m k =
      token_matched s s.temporary c.temporary_seen (k refl)
  stage_by-AreVerified s d false false c v m k = tt

  pub stage-AreVerified :
      (p : Option PendingEntry) (visible : Observed) (s : Stage) (replayed : Bool)
      → IsSeen read size visible
      → IsChecked s
      → is_replayed p visible (some s) ≡ replayed
      → All (IsVerified read size) (bind_stage s (token_destination s visible replayed))
  stage-AreVerified p visible s true v c e =
      stage_by-AreVerified s visible _ _ c v (λ h. is_replayed-matches p visible s e)
        (λ h. c.whole (both_left _ _ h) (both_left _ _ (both_right _ _ h)))
  stage-AreVerified p visible s false v c e =
      stage_by-AreVerified s s.stage _ _ c c.stage_seen (λ h. c.sealed (both_right _ _ h))
        (λ h. c.whole (both_left _ _ h) (both_left _ _ (both_right _ _ h)))
