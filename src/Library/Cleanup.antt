-- ===== src/Library/Cleanup.antt =====
-- `maintain_cleanup` of library.py: the staging files of released tokens, then the rows of
-- completed activations, a bounded page of either.
use h2hdb_ingest.Prelude.{
  ℕ, zero, suc, Bool, true, false, ◌&&◌, Option, none, some, List, [], ◌∷◌, Result, ok, err, ◌==◌,
  if◌then◌else◌, is_some, map_option, take,
}
use h2hdb_ingest.Library.Tables.{rank, Identity, same_key, same_identity}
use h2hdb_ingest.Library.State.{
  Error, TokenState, released, Leaf, Token, Journal, Exec, pure, lift, ◌>>◌, transaction,
  CursorCodec, check_journal,
}

pub data Outcome : Type 0 where
  progressed blocked done : Outcome

-- _MAX_CLEANUP_ITEMS and _MAX_JOURNAL_CLEANUP_ITEMS
abbrev pub max_cleanup_items : ℕ
max_cleanup_items = 8

abbrev pub max_journal_cleanup_items : ℕ
max_journal_cleanup_items = 128

abbrev pub is_released : TokenState → Bool
is_released released = true
is_released _ = false

-- state = 'RELEASED' AND staging_leaf IS NOT NULL
abbrev pub is_cleanable : Token → Bool
is_cleanable t = is_released t.state && is_some t.staging_leaf

unfoldable pub cleanable : List Token → List Token
cleanable [] = []
cleanable (t ∷ ts) = let rest = cleanable ts in if is_cleanable t then t ∷ rest else rest

-- staging_leaf IS ?
abbrev pub same_stage_leaf : Option Leaf → Option Leaf → Bool
same_stage_leaf (some a) (some b) = a.token == b.token && rank a.kind == rank b.kind
same_stage_leaf none none = true
same_stage_leaf _ _ = false

-- device IS ? AND inode IS ? AND modified_ns IS ? AND changed_ns IS ?
abbrev pub same_stage_identity : Option Identity → Option Identity → Bool
same_stage_identity (some a) (some b) = same_identity a b
same_stage_identity none none = true
same_stage_identity _ _ = false

abbrev pub is_row : Token → Token → Bool
is_row a t =
    t.token == a.token
    && (is_released t.state
        && (same_key t.key a.key
            && (t.digest == a.digest
                && (t.size_bytes == a.size_bytes
                    && (same_stage_leaf t.staging_leaf a.staging_leaf
                        && same_stage_identity t.identity a.identity)))))

-- UPDATE protection_tokens SET staging_leaf = NULL, ...: `none` if no row was updated
unfoldable pub clear_token : Token → List Token → Option (List Token)
clear_token a [] = none
clear_token a (t ∷ ts) =
    let rest = map_option (λ us. t ∷ us) (clear_token a ts) in
    if is_row a t then some (record t { staging_leaf = none; identity = none } ∷ ts) else rest

unfoldable pub clear_journal : Token → Journal → Result Error Journal
clear_journal a j = elim (clear_token a j.tokens) [
  | none ↦ err Error.authorization_changed
  | some ts ↦ ok (record j { tokens = ts })
]

-- one row: its files, by the disk, and then its stage columns
unfoldable pub clear_rows : (Token → Result Error (Unit {0})) → List Token → Exec (Unit {0})
clear_rows remove [] = pure tt
clear_rows remove (t ∷ ts) = do lift (remove t); transaction (clear_journal t); clear_rows remove ts

-- what is left once the first `n` rows in primary-key order are deleted
unfoldable pub drop {ℓ} : {A : Type ℓ} → ℕ → List A → List A
drop zero xs = xs
drop (suc n) [] = []
drop (suc n) (x ∷ xs) = drop n xs

unfoldable pub purge : Journal → Result Error Journal
purge j = ok (record j { pending_entries = drop max_journal_cleanup_items j.pending_entries })

abbrev pub has_rows {ℓ} : {A : Type ℓ} → List A → Bool
has_rows [] = false
has_rows (_ ∷ _) = true

unfoldable pub purge_entries : Exec Outcome
purge_entries s =
    if has_rows s.pending_entries then (do transaction purge; pure progressed) s else (ok done, s)

-- the second look at the journal
unfoldable pub finish_cleanup : List Token → Exec Outcome
finish_cleanup rows s =
    if is_some s.pending_revision
    then (ok blocked, s)
    else if has_rows rows
    then (ok progressed, s)
    else if has_rows (cleanable s.tokens)
    then (ok blocked, s)
    else purge_entries s

unfoldable pub clean : CursorCodec → (Token → Result Error (Unit {0})) → List Token → Exec Outcome
clean codec remove rows = do clear_rows remove rows; check_journal codec; finish_cleanup rows

unfoldable pub select_cleanup : CursorCodec → (Token → Result Error (Unit {0})) → Exec Outcome
select_cleanup codec remove s =
    if is_some s.pending_revision
    then (ok blocked, s)
    else clean codec remove (take max_cleanup_items (cleanable s.tokens)) s

unfoldable pub maintain_cleanup : CursorCodec → (Token → Result Error (Unit {0})) → Exec Outcome
maintain_cleanup codec remove = do check_journal codec; select_cleanup codec remove
