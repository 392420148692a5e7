-- ===== src/Storage/Keys.antt =====
-- Storage keys: the key of a GID and a kind, and what is read from it.
use h2hdb_ingest.Prelude.{ℕ, ◌≡◌, Bool, true, Option, none, some, arith, if◌then◌else◌, ap}
use h2hdb_ingest.Prelude.Texts.{Text}
use h2hdb_ingest.Library.Tables.{Kind}
use h2hdb_ingest.Storage.{
  Shards, is_gid, storage_key, storage_path, validate_storage_path, validate_storage_key,
  StorageObjectKey, storage_key_gid, storage_key_resource_kind, storage_object_codec, split,
}
use h2hdb_ingest.Storage.Segments.{join-split}
use h2hdb_ingest.Storage.RoundTrip.{IsCoded-validate}
use h2hdb_ingest.Storage.Coded.{storage_path-IsCoded}

-- a key from which the GID and the kind are read, and that is validated if it is well formed
abbrev pub IsKeyOf :
    (StorageObjectKey → Bool) → Shards → ℕ → Kind → Option StorageObjectKey → Type 0
IsKeyOf is_well_formed shards gid kind none = ⊥
IsKeyOf is_well_formed shards gid kind (some key) =
    (storage_key_gid key ≡ some gid)
    × (storage_key_resource_kind key ≡ some kind)
    × (validate_storage_key is_well_formed shards key
        ≡ (if is_well_formed key then some key else none))

abbrev key_of : Text → StorageObjectKey
key_of path = record { codec = storage_object_codec; segments = split path }

storage_key-key_of :
    (shards : Shards) (gid : ℕ) (kind : Kind) (path : Text)
    → storage_path shards gid kind ≡ some path
    → storage_key shards gid kind ≡ some (key_of path)
unfolding storage_key
storage_key-key_of shards gid kind path h = ground (arith, h)

-- Every GID in range has a key for either kind; the GID and the kind are read from that key, and
-- the codec validates it exactly if the key itself is well formed.
pub storage_key-IsKeyOf :
    (is_well_formed : StorageObjectKey → Bool) (shards : Shards) (gid : ℕ) (kind : Kind)
    → is_gid gid ≡ true
    → IsKeyOf is_well_formed shards gid kind (storage_key shards gid kind)
unfolding validate_storage_key
storage_key-IsKeyOf is_well_formed shards gid kind h =
    let (path, p) = storage_path-IsCoded shards gid kind h in
    let same = ap (validate_storage_path shards storage_object_codec) (join-split path) in
    rw (storage_key-key_of shards gid kind path p.is_printed)
      (p.gid_read, p.kind_read, ground (arith, same, IsCoded-validate shards gid kind path p))
