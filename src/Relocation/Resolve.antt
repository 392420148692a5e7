-- ===== src/Relocation/Resolve.antt =====
-- `_resolve` of library_relocation.py: which file each row about a storage path means.
use h2hdb_ingest.Prelude.{
  ℕ, Bool, true, false, not, ◌&&◌, ◌||◌, Option, none, some, List, [], ◌∷◌, ◌++◌, Result, ok, ◌==◌,
  is_some,
}
use h2hdb_ingest.Library.Tables.{CurrentEntry, PendingEntry, PendingRemoval}
use h2hdb_ingest.Library.State.{Token}
use h2hdb_ingest.Library.Files.{Signature, File}
use h2hdb_ingest.Relocation.{
  at_current, at_quarantine, at_stage, at_temporary, Error, Observed, Group, Binding, matches,
  signature, signature_of, same_content, require, Reader, observe, ◌>>=◌,
}
use h2hdb_ingest.Relocation.Rows.{maximum, check_rows, has_leaf, is_staged, check_token, Stage}
use h2hdb_ingest.Relocation.Bind.{
  is_visible, bind_current, bind_token, bind_pending, bind_removal, check_bindings, stage_places,
  quarantine_places,
}

abbrev observe_token : Reader → ℕ → Token → Result Error (Option Stage)
observe_token read size t = do
  _ ← require (has_leaf t.staging_leaf t.token t.key.kind) Error.unsafe_leaf
  stage ← observe read (at_stage t.token) size
  temporary ← observe read (at_temporary t.token) size
  _ ← check_token t stage.found temporary.found
  ok (some (record { token = t; stage = stage; temporary = temporary }))

unfoldable pub observe_stage : Reader → ℕ → Option Token → Result Error (Option Stage)
observe_stage read size none = ok none
observe_stage read size (some t) = observe_token read size t

abbrev pub replays : Option PendingEntry → Token → Bool
replays none t = false
replays (some p) t =
    p.operation_started
    && (not p.activated && (t.digest == p.artifact.digest && t.size_bytes == p.artifact.size_bytes))

-- the staged file has become the current one, and only the response was lost
unfoldable pub is_replayed : Option PendingEntry → Observed → Option Stage → Bool
is_replayed pending visible none = false
is_replayed pending visible (some s) =
    is_staged s.token.state
    && (not (is_some s.stage.found)
        && (not (is_some s.temporary.found)
            && (replays pending s.token
                && matches visible.found s.token.digest s.token.size_bytes)))

abbrev started_removal : Option PendingRemoval → Bool
started_removal none = false
started_removal (some r) = r.operation_started

abbrev started_install : Option PendingEntry → Bool
started_install none = false
started_install (some p) = p.operation_started && not p.activated

abbrev stage_signature : Option Stage → Option Signature
stage_signature none = none
stage_signature (some s) = signature s.token.size_bytes s.token.identity

-- a replacement by equal bytes is told from the old file by its inode
abbrev is_replacement : Option File → Signature → Option Signature → Bool
is_replacement none original stage = false
is_replacement (some f) original none = false
is_replacement (some f) original (some s) =
    same_content f.signature s && not (same_content f.signature original)

abbrev check_replacement : Observed → CurrentEntry → Option Stage → Result Error (Unit {0})
check_replacement visible c s =
    require
      (not (matches visible.found c.artifact.digest c.artifact.size_bytes)
        || is_replacement visible.found (signature_of c.artifact.size_bytes c.identity)
            (stage_signature s))
      Error.ambiguous_replacement

-- where the file of the current entry is, if it is not gone: whether its quarantine has a file,
-- whether the current name has one that is not the staged one, and whether that is replayed
abbrev pub destination_by :
    Group
    → CurrentEntry
    → Observed
    → Observed
    → Option Stage
    → Bool
    → Bool
    → Bool
    → Result Error (Option Observed)
destination_by g c visible quarantine s true kept replayed = do
  _ ←
      require
        (matches quarantine.found c.artifact.digest c.artifact.size_bytes
          && (started_removal g.removal || started_install g.pending))
        Error.lacks_capture
  _ ← require (not (is_some visible.found && not replayed)) Error.ambiguous_duplicate
  ok (some quarantine)
destination_by g c visible quarantine s false true replayed = do
  _ ← require (matches visible.found c.artifact.digest c.artifact.size_bytes) Error.hash_mismatch
  ok (some visible)
destination_by g c visible quarantine s false false true = do
  _ ← check_replacement visible c s
  ok none
destination_by g c visible quarantine s false false false = do
  _ ← require (started_removal g.removal) Error.missing_files
  ok none

unfoldable pub destination_of :
    Group → CurrentEntry → Observed → Observed → Option Stage → Result Error (Option Observed)
destination_of g c visible quarantine s =
    let replayed = is_replayed g.pending visible s in
    destination_by g c visible quarantine s (is_some quarantine.found)
      (is_some visible.found && not replayed) replayed

unfoldable pub observe_quarantine :
    Reader → ℕ → Option CurrentEntry → Result Error (Option Observed)
observe_quarantine read size none = ok none
observe_quarantine read size (some c) =
    observe read (at_quarantine c.artifact.digest) size >>= λ o. ok (some o)

unfoldable pub locate :
    Group
    → Observed
    → Option Stage
    → Option CurrentEntry
    → Option Observed
    → Result Error (Option Observed)
locate g visible s (some c) (some quarantine) = destination_of g c visible quarantine s
locate g visible s c q = ok none

-- what is read for one storage path
pub record Reading : Type 0 where
  pub visible : Observed
  pub quarantine : Option Observed
  pub stage : Option Stage
  pub destination : Option Observed

unfoldable pub read_files : Reader → Group → Result Error Reading
read_files read g = do
  visible ← observe read at_current (maximum g)
  quarantine ← observe_quarantine read (maximum g) g.current
  stage ← observe_stage read (maximum g) g.token
  destination ← locate g visible stage g.current quarantine
  ok (record {
    visible = visible;
    quarantine = quarantine;
    stage = stage;
    destination = destination;
  })

unfoldable pub bind_rows : Group → Reading → Result Error (List Binding)
bind_rows g r = do
  _ ←
      require
        (not (is_some r.visible.found)
          || (is_visible r.destination || is_replayed g.pending r.visible r.stage))
        Error.unknown_file
  tokens ← bind_token r.stage r.visible (is_replayed g.pending r.visible r.stage)
  pending ← bind_pending g.pending r.visible
  removal ← bind_removal g.removal r.destination
  ok (bind_current g.current r.destination ++ (tokens ++ (pending ++ removal)))

abbrev places : Reading → List Observed
places r = r.visible ∷ (quarantine_places r.quarantine ++ stage_places r.stage)

-- `_resolve`
unfoldable pub resolve : Reader → Group → Result Error (List Observed × List Binding)
resolve read g = do
  _ ← check_rows g
  files ← read_files read g
  bindings ← bind_rows g files
  _ ← check_bindings [] bindings
  ok (places files, bindings)
