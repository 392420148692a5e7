-- ===== src/Relocation/Bind.antt =====
-- The bindings of `_resolve` (library_relocation.py): which file each row is bound to.
use h2hdb_ingest.Prelude.{
  Bool, true, false, not, ◌&&◌, ◌||◌, Option, none, some, List, [], ◌∷◌, Result, ok, ◌==◌,
  if◌then◌else◌, is_some,
}
use h2hdb_ingest.Library.Tables.{CurrentEntry, PendingEntry, PendingRemoval}
use h2hdb_ingest.Library.State.{Token}
use h2hdb_ingest.Library.Files.{Signature, same_signature}
use h2hdb_ingest.Relocation.{
  Place, at_current, at_quarantine, at_stage, at_temporary, current_entries, pending_entries,
  pending_removals, protection_tokens, Error, Observed, Binding, matches, signature, signature_of,
  require, ◌>>=◌,
}
use h2hdb_ingest.Relocation.Rows.{is_staged, is_released, is_installed, Stage}

abbrev is_at_current : Place → Bool
is_at_current at_current = true
is_at_current p = false

abbrev pub is_visible : Option Observed → Bool
is_visible none = false
is_visible (some o) = is_at_current o.place

abbrev pub bind_current : Option CurrentEntry → Option Observed → List Binding
bind_current none d = []
bind_current (some c) none = []
bind_current (some c) (some d) =
    record {
      table = current_entries;
      digest = c.artifact.digest;
      size_bytes = c.artifact.size_bytes;
      original = some (signature_of c.artifact.size_bytes c.identity);
      destination = d;
    }
    ∷ []

abbrev pub token_binding : Token → Observed → Binding
token_binding t d = record {
  table = protection_tokens;
  digest = t.digest;
  size_bytes = t.size_bytes;
  original = signature t.size_bytes t.identity;
  destination = d;
}

abbrev pub token_destination : Stage → Observed → Bool → Observed
token_destination s visible replayed = if replayed then visible else s.stage

-- the binding of a token: to its destination, or to a complete temporary file that is kept for cleanup
abbrev pub bind_stage_by : Stage → Observed → Bool → Bool → List Binding
bind_stage_by s d true kept = token_binding s.token d ∷ []
bind_stage_by s d false true = token_binding s.token s.temporary ∷ []
bind_stage_by s d false false = []

abbrev pub bind_stage : Stage → Observed → List Binding
bind_stage s d =
    bind_stage_by s d (is_some s.token.identity && is_some d.found)
      (is_some s.temporary.found && (is_some s.token.identity && is_released s.token.state))

unfoldable pub bind_token : Option Stage → Observed → Bool → Result Error (List Binding)
bind_token none visible replayed = ok []
bind_token (some s) visible replayed = do
  _ ←
      require (replayed || not (is_staged s.token.state && not (is_some s.stage.found)))
        Error.missing_stage
  _ ← require (not (is_installed s.token.state)) Error.retained_authority
  ok (bind_stage s (token_destination s visible replayed))

abbrev pub pending_binding : PendingEntry → Observed → Binding
pending_binding p d = record {
  table = pending_entries;
  digest = p.artifact.digest;
  size_bytes = p.artifact.size_bytes;
  original = signature p.artifact.size_bytes p.identity;
  destination = d;
}

abbrev pub bind_activated : PendingEntry → Observed → Bool → Result Error (List Binding)
bind_activated p visible true = do
  _ ←
      require (matches visible.found p.artifact.digest p.artifact.size_bytes)
        Error.activation_disagrees
  ok (pending_binding p visible ∷ [])
bind_activated p visible false = ok []

abbrev agrees : Bool → Bool → Bool
agrees true b = b
agrees false b = not b

unfoldable pub bind_pending : Option PendingEntry → Observed → Result Error (List Binding)
bind_pending none visible = ok []
bind_pending (some p) visible =
    require (agrees p.activated (is_some p.identity)) Error.activation_disagrees >>= λ _.
    bind_activated p visible p.activated

abbrev pub removal_binding : PendingRemoval → Observed → Binding
removal_binding r d = record {
  table = pending_removals;
  digest = r.artifact.digest;
  size_bytes = r.artifact.size_bytes;
  original = some (signature_of r.artifact.size_bytes r.identity);
  destination = d;
}

unfoldable pub bind_removal : Option PendingRemoval → Option Observed → Result Error (List Binding)
bind_removal none d = ok []
bind_removal (some r) none = ok []
bind_removal (some r) (some d) =
    require (matches d.found r.artifact.digest r.artifact.size_bytes) Error.activation_disagrees
    >>= λ _. ok (removal_binding r d ∷ [])

abbrev same_place : Place → Place → Bool
same_place at_current at_current = true
same_place (at_quarantine a) (at_quarantine b) = a == b
same_place (at_stage a) (at_stage b) = a == b
same_place (at_temporary a) (at_temporary b) = a == b
same_place _ _ = false

abbrev keeps_original : Option Signature → Option Signature → Bool
keeps_original (some a) (some b) = same_signature a b
keeps_original a b = false

-- the earlier bindings of the same file had the same saved signature
abbrev originals_agree : Binding → List Binding → Bool
originals_agree b [] = true
originals_agree b (c ∷ cs) =
    (not (same_place c.destination.place b.destination.place)
      || keeps_original c.original b.original)
    && originals_agree b cs

unfoldable pub check_bindings : List Binding → List Binding → Result Error (Unit {0})
check_bindings earlier [] = ok tt
check_bindings earlier (b ∷ bs) =
    require (is_some b.original && is_some b.destination.found) Error.incomplete_mapping >>= λ _.
    require (originals_agree b earlier) Error.original_disagrees >>= λ _.
    check_bindings (b ∷ earlier) bs

abbrev pub stage_places : Option Stage → List Observed
stage_places none = []
stage_places (some s) = s.stage ∷ s.temporary ∷ []

abbrev pub quarantine_places : Option Observed → List Observed
quarantine_places none = []
quarantine_places (some o) = o ∷ []
