-- ===== src/Library/Staging.antt =====
-- `protect` and `release` of library.py: the transactions on the token, and the file operations
-- between them.
use h2hdb_ingest.Prelude.{
  ℕ, Bool, true, false, ◌&&◌, Option, none, some, List, [], ◌∷◌, Result, ok, err, if◌then◌else◌,
  is_some,
}
use h2hdb_ingest.Library.Tables.{StorageKey, Identity}
use h2hdb_ingest.Library.State.{
  Error, writing, staged, installed, released, TokenState, Token, Journal, Bytes, Exec, pure, lift,
  ◌>>=◌, ◌>>◌, transaction, transaction_with, int63, exact_bytes, CursorCodec,
}
use h2hdb_ingest.Library.Cleanup.{clear_token}
use h2hdb_ingest.Library.Protection.{
  Request, Opening, already_released, already_installed, already_staged, to_write, Finish, kept,
  discarded, find_token, is_row_of, is_stage_leaf, open_stage, finish_stage,
}
use h2hdb_ingest.Library.Withdrawing.{Release, select_release, insert_tombstone, release_row}

-- What another caller may commit between two transactions of this one.
pub data TokenCall : Type 0 where
  opens : Request → TokenCall
  finishes : Request → Identity → TokenCall
  inserts : Release → TokenCall
  releases : Release → TokenCall
  clears : Token → TokenCall

abbrev pub clear_released : Token → Journal → Result Error Journal
clear_released t j = elim (clear_token t j.tokens) [
  | none ↦ err Error.cleanup_changed
  | some ts ↦ ok (record j { tokens = ts })
]

abbrev dropped {ℓ} : {A : Type ℓ} → Journal → Result Error (Journal × A) → Journal
dropped j (ok (j', a)) = j'
dropped j (err e) = j

abbrev written : Journal → Result Error Journal → Journal
written j (ok j') = j'
written j (err e) = j

unfoldable pub commit_call : TokenCall → Journal → Journal
commit_call (opens r) j = dropped j (open_stage r j)
commit_call (finishes r i) j = dropped j (finish_stage r i j)
commit_call (inserts r) j = written j (insert_tombstone r j)
commit_call (releases r) j = dropped j (release_row r j)
commit_call (clears t) j = written j (clear_released t j)

unfoldable pub commit_calls : List TokenCall → Journal → Journal
commit_calls [] j = j
commit_calls (c ∷ cs) j = commit_calls cs (commit_call c j)

unfoldable pub meanwhile : List TokenCall → Exec (Unit {0})
meanwhile cs s = (ok tt, record s { journal = commit_calls cs s.journal })

-- The files below `staging` and `current`: each operation may raise, and other callers may run
-- while the bytes are written or removed.
pub record StageDisk : Type 0 where
  pub require_current : StorageKey → ℕ → Identity → Result Error (Unit {0})
  pub verify_stage : Request → Token → Result Error (Unit {0})
  pub verify_current : Request → Result Error (Unit {0})
  pub write_stage : Request → Result Error Identity
  pub discard : Request → Identity → Result Error (Unit {0})
  pub has_stage : Release → Bool
  pub has_temporary : Release → Bool
  pub remove : Release → Token → Result Error (Unit {0})
  pub others : List TokenCall

-- `_size`, `_digest`, `_modified_at`, `_token` and the storage codec, in the order of the calls
unfoldable pub request_of : Option StorageKey → Bytes → ℕ → Option ℕ → Bytes → Result Error Request
request_of none digest size modified token = elim (exact_bytes 32 Error.bad_token token) [
  | err e ↦ err e
  | ok t ↦ err Error.bad_key
]
request_of (some key) digest size modified token = elim (exact_bytes 32 Error.bad_token token) [
  | err e ↦ err e
  | ok t ↦ elim (exact_bytes 32 Error.bad_digest digest) [
    | err e ↦ err e
    | ok d ↦ elim (int63 size Error.bad_size) [
      | err e ↦ err e
      | ok n ↦ elim modified [
        | none ↦ err Error.bad_modified_at
        | some m ↦ ok (record { token = t; key = key; digest = d; size_bytes = n; modified_at = m })
      ]
    ]
  ]
]

unfoldable pub release_of : Option StorageKey → Bytes → ℕ → Bytes → Result Error Release
release_of none digest size token = err Error.bad_key
release_of (some key) digest size token = elim (exact_bytes 32 Error.bad_digest digest) [
  | err e ↦ err e
  | ok d ↦ elim (int63 size Error.bad_size) [
    | err e ↦ err e
    | ok n ↦ elim (exact_bytes 32 Error.bad_token token) [
      | err e ↦ err e
      | ok t ↦ ok (record { token = t; key = key; digest = d; size_bytes = n })
    ]
  ]
]

module _ (disk : StageDisk) where
  open disk use {
    require_current, verify_stage, verify_current, write_stage, discard, has_stage, has_temporary,
    remove, others,
  }

  abbrev answered : Result Error (Unit {0}) → Bool → Result Error (Option Bool)
  answered (ok _) b = ok (some b)
  answered (err e) b = err e

  -- `match state` of `_protection_replay_result`: `none` if there is no terminal state
  abbrev replay_state : Request → Token → TokenState → Result Error (Option Bool)
  replay_state r t released = ok (some false)
  replay_state r t installed = answered (verify_current r) true
  replay_state r t staged =
      if is_stage_leaf r.token r.key t.staging_leaf
      then answered (verify_stage r t) true
      else ok none
  replay_state r t writing = ok none

  unfoldable pub replay_result : Request → Journal → Result Error (Option Bool)
  replay_result r j = elim (find_token r.token j.tokens) [
    | none ↦ ok none
    | some t ↦ if is_row_of r t then replay_state r t t.state else ok none
  ]

  abbrev replayed : Error → Option Bool → Result Error Bool
  replayed e none = err e
  replayed e (some b) = ok b

  -- `except BaseException`: a terminal state answers in place of the error
  abbrev recovered : Error → Result Error (Option Bool) → Result Error Bool
  recovered e (ok o) = replayed e o
  recovered e (err x) = err x

  unfoldable pub recover : Request → Error → Exec Bool
  recover r e s = (recovered e (replay_result r s.journal), s)

  unfoldable pub finished : Request → Finish → Exec Bool
  finished r kept = pure true
  finished r (discarded i) = do lift (discard r i); pure false

  unfoldable pub stage_written : Request → Result Error Identity → Exec Bool
  stage_written r (err e) = recover r e
  stage_written r (ok i) = do f ← transaction_with (finish_stage r i); finished r f

  -- the answer is whether the object is stored: `ArtifactStorageEvidence`
  unfoldable pub protect_rest : Request → Opening → Exec Bool
  protect_rest r already_released = pure false
  protect_rest r (already_installed i) = do lift (require_current r.key r.size_bytes i); pure true
  protect_rest r (already_staged t) = do lift (verify_stage r t); pure true
  protect_rest r to_write = do meanwhile others; stage_written r (write_stage r)

  unfoldable pub protect_request : Request → Exec Bool
  protect_request r = do o ← transaction_with (open_stage r); protect_rest r o

  unfoldable pub protect : Option StorageKey → Bytes → ℕ → Option ℕ → Bytes → Exec Bool
  protect key digest size modified token = do
    r ← lift (request_of key digest size modified token)
    protect_request r

  unfoldable pub clear_stage : Token → Bool → Exec (Unit {0})
  clear_stage t newly_released =
      if newly_released && is_some t.staging_leaf then transaction (clear_released t) else pure tt

  unfoldable pub release_token : Release → Option Token → Exec (Unit {0})
  release_token r none = do
    lift (if has_stage r then err Error.unowned_stage else ok tt)
    lift (if has_temporary r then err Error.unowned_temporary else ok tt)
    meanwhile others
    transaction (insert_tombstone r)
  release_token r (some t) = do
    meanwhile others
    w ← transaction_with (release_row r)
    lift (remove r w.row)
    clear_stage w.row w.newly_released

  unfoldable pub select : CursorCodec → Release → Exec (Option Token)
  select codec r s = (select_release codec r s.journal, s)

  unfoldable pub release : CursorCodec → Option StorageKey → Bytes → ℕ → Bytes → Exec (Unit {0})
  release codec key digest size token = do
    r ← lift (release_of key digest size token)
    t ← select codec r
    release_token r t
