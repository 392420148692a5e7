-- ===== src/Tests/Storage.antt =====
-- The storage codec at a concrete GID.
use h2hdb_ingest.Prelude.{◌≡◌, true, some, arith, refl}
use h2hdb_ingest.Prelude.Texts.{text, Text, same_text, decimal, read_digits, read_decimal}
use h2hdb_ingest.Library.Tables.{acquisition, thumbnail}
use h2hdb_ingest.Storage.{
  Shards, is_gid, storage_path, storage_object_codec, validate_storage_path, storage_key, split,
  path_kind, shape_kind, path_gid, encoded_of, read_gid, require_gid, str, strip_prefix,
  strip_suffix,
}
use h2hdb_ingest.Storage.RoundTrip.{IsValidated, validate-storage_path, validate_storage_path-eq}
use h2hdb_ingest.Storage.Keys.{IsKeyOf, storage_key-IsKeyOf}

-- digests that all begin alike
abbrev shards : Shards
shards = record {
  hexdigest = λ gid. text "0af3";
  is_long = λ gid. refl;
  is_plain = λ gid. ground arith;
}

validate-storage_path_example :
    IsValidated shards 2345678 acquisition (storage_path shards 2345678 acquisition)
validate-storage_path_example = validate-storage_path shards 2345678 acquisition refl

abbrev path : Text
path = text "artwork/hash-v2/0a/f/h2h-42/thumbnail-320.jpg"

path_accepted : validate_storage_path shards storage_object_codec path ≡ some (42, thumbnail)
unfolding validate_storage_path storage_path split path_kind shape_kind path_gid encoded_of read_gid
    require_gid str strip_prefix strip_suffix same_text decimal read_digits read_decimal
path_accepted = refl

validate_storage_path-eq_example :
    (storage_object_codec ≡ storage_object_codec)
    × (is_gid 42 ≡ true)
    × (storage_path shards 42 thumbnail ≡ some path)
validate_storage_path-eq_example =
    validate_storage_path-eq shards storage_object_codec path 42 thumbnail path_accepted

storage_key-IsKeyOf_example :
    IsKeyOf (λ k. true) shards 7 thumbnail (storage_key shards 7 thumbnail)
storage_key-IsKeyOf_example = storage_key-IsKeyOf (λ k. true) shards 7 thumbnail refl
