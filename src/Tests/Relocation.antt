-- ===== src/Tests/Relocation.antt =====
-- The theorem about the relocation of a library at concrete rows and files.
use h2hdb_ingest.Prelude.{ℕ, ◌≡◌, true, false, none, some, List, [], ◌∷◌, ok, refl, All}
use h2hdb_ingest.Library.Tables.{
  Kind, Identity, CurrentEntry, PendingEntry, Artifact, same_key, same_cursor, same_object,
  same_identity,
}
use h2hdb_ingest.Library.State.{TokenState, Token}
use h2hdb_ingest.Library.Files.{File, same_signature}
use h2hdb_ingest.Relocation.{
  at_current, at_quarantine, at_stage, at_temporary, Table, Observed, Group, Binding, Reader,
  observe, require, same_content, ◌>>=◌,
}
use h2hdb_ingest.Relocation.Resolve.{
  observe_stage, observe_quarantine, is_replayed, destination_of, locate, read_files, bind_rows,
  resolve,
}
use h2hdb_ingest.Relocation.Bind.{bind_token, bind_pending, bind_removal, check_bindings}
use h2hdb_ingest.Relocation.Rows.{maximum, check_rows, check_token}
use h2hdb_ingest.Relocation.Verified.{IsVerified}
use h2hdb_ingest.Relocation.Resolved.{resolve-AreVerified}

abbrev identity : ℕ → ℕ → Identity
identity device inode = record { device = device; inode = inode; modified_ns = 5; changed_ns = 6 }

abbrev artifact : ℕ → Artifact
artifact digest = record {
  key = record { gid = 7; kind = Kind.thumbnail };
  digest = digest;
  size_bytes = 10;
  modified_at = 4;
}

-- the old file and its replacement, as the journal knew them on the old mount
abbrev old_entry : CurrentEntry
old_entry = record {
  at = record { publication_key = 1; kind = Kind.thumbnail };
  artifact = artifact 30;
  identity = identity 1 3;
}

abbrev new_entry : PendingEntry
new_entry = record {
  revision = 2;
  at = record { publication_key = 1; kind = Kind.thumbnail };
  artifact = artifact 20;
  operation_started = true;
  activated = false;
  identity = none;
}

abbrev new_token : Token
new_token = record {
  token = 9;
  key = record { gid = 7; kind = Kind.thumbnail };
  digest = 20;
  size_bytes = 10;
  modified_at = some 4;
  state = TokenState.staged;
  staging_leaf = some (record { token = 9; kind = Kind.thumbnail });
  identity = some (identity 1 2);
}

abbrev group : Group
group = record {
  current = some old_entry;
  pending = some new_entry;
  removal = none;
  token = some new_token;
}

abbrev file : ℕ → ℕ → File
file inode digest = record {
  signature = record { identity = identity 8 inode; size_bytes = 10 };
  digest = digest;
}

-- the new mount: the staged file has been renamed, and the old one is in the quarantine
abbrev mount : Reader
mount at_current size = ok (some (file 52 20))
mount (at_quarantine d) size = ok (some (file 53 30))
mount p size = ok none

abbrev old_binding : Binding
old_binding = record {
  table = Table.current_entries;
  digest = 30;
  size_bytes = 10;
  original = some (record { identity = identity 1 3; size_bytes = 10 });
  destination = record { place = at_quarantine 30; found = some (file 53 30) };
}

abbrev new_binding : Binding
new_binding = record {
  table = Table.protection_tokens;
  digest = 20;
  size_bytes = 10;
  original = some (record { identity = identity 1 2; size_bytes = 10 });
  destination = record { place = at_current; found = some (file 52 20) };
}

abbrev places : List Observed
places =
    record { place = at_current; found = some (file 52 20) }
    ∷ record { place = at_quarantine 30; found = some (file 53 30) }
    ∷ record { place = at_stage 9; found = none }
    ∷ record { place = at_temporary 9; found = none }
    ∷ []

replayed : resolve mount group ≡ ok (places, old_binding ∷ new_binding ∷ [])
unfolding resolve read_files bind_rows check_rows check_token observe_stage observe_quarantine
    is_replayed destination_of locate bind_token bind_pending bind_removal check_bindings observe
    require same_content ◌>>=◌ same_key same_cursor same_object same_identity same_signature
replayed = refl

resolve-AreVerified_example :
    All (IsVerified mount (maximum group)) (old_binding ∷ new_binding ∷ [])
resolve-AreVerified_example =
    resolve-AreVerified mount group places (old_binding ∷ new_binding ∷ []) replayed
