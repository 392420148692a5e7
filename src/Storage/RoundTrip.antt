-- ===== src/Storage/RoundTrip.antt =====
-- The storage codec reads back what it prints, and accepts nothing else.
use h2hdb_ingest.Prelude.{ℕ, ◌≡◌, true, Option, none, some, List, arith, Option-cases, inl, inr}
use h2hdb_ingest.Prelude.Texts.{Text, same_text_refl, same_text-eq, read_decimal}
use h2hdb_ingest.Library.Tables.{Kind}
use h2hdb_ingest.Storage.{
  split, Shards, is_gid, require_gid, storage_path, path_kind, leaf_of, encoded_of, read_gid,
  path_gid, validate_storage_path, storage_object_codec,
}
use h2hdb_ingest.Storage.Coded.{IsCoded, storage_path-IsCoded}

-- a path that is there, and from which the codec reads the GID and the kind
abbrev pub IsValidated : Shards → ℕ → Kind → Option Text → Type 0
IsValidated shards gid kind none = ⊥
IsValidated shards gid kind (some path) =
    validate_storage_path shards storage_object_codec path ≡ some (gid, kind)

pub IsCoded-validate :
    (shards : Shards) (gid : ℕ) (kind : Kind) (path : Text)
    → IsCoded shards gid kind path
    → validate_storage_path shards storage_object_codec path ≡ some (gid, kind)
unfolding validate_storage_path
IsCoded-validate shards gid kind path h =
    ground (arith, h.kind_read, h.gid_read, h.is_printed, same_text_refl path)

-- Every GID from 1 to 2 ^ 63 - 1 has a path for either kind, and the codec validates that path and
-- reads the same GID and kind from it.
pub validate-storage_path :
    (shards : Shards) (gid : ℕ) (kind : Kind)
    → is_gid gid ≡ true
    → IsValidated shards gid kind (storage_path shards gid kind)
validate-storage_path shards gid kind h =
    let (path, p) = storage_path-IsCoded shards gid kind h in
    rw p.is_printed (IsCoded-validate shards gid kind path p)

read_gid-is_gid : (encoded : Text) (gid : ℕ) → read_gid encoded ≡ some gid → is_gid gid ≡ true
unfolding read_gid require_gid
read_gid-is_gid encoded gid h = elim (Option-cases (read_decimal encoded)) [
  | inl n ↦ absurd (ground arith)
  | inr (v, n) ↦ ground (arith, n)
]

path_gid-is_gid :
    (codec : Text) (segments : List Text) (gid : ℕ)
    → path_gid codec segments ≡ some gid
    → is_gid gid ≡ true
unfolding path_gid
path_gid-is_gid codec segments gid h = elim (Option-cases (path_kind codec segments)) [
  | inl n ↦ absurd (ground arith)
  | inr (kind, n) ↦ elim (Option-cases (encoded_of (leaf_of kind segments) kind)) [
    | inl m ↦ absurd (ground arith)
    | inr (encoded, m) ↦ read_gid-is_gid encoded gid (ground arith)
  ]
]

path_kind-codec :
    (codec : Text) (segments : List Text) (kind : Kind)
    → path_kind codec segments ≡ some kind
    → codec ≡ storage_object_codec
unfolding path_kind
path_kind-codec codec segments kind h = ground (arith, same_text-eq codec storage_object_codec)

-- A path that the codec validates is under its own name, its GID is from 1 to 2 ^ 63 - 1, and it is
-- the very path that the codec prints for the GID and the kind that are read.
pub validate_storage_path-eq :
    (shards : Shards) (codec path : Text) (gid : ℕ) (kind : Kind)
    → validate_storage_path shards codec path ≡ some (gid, kind)
    → (codec ≡ storage_object_codec)
      × (is_gid gid ≡ true)
      × (storage_path shards gid kind ≡ some path)
unfolding validate_storage_path
validate_storage_path-eq shards codec path gid kind h =
    elim (Option-cases (path_kind codec (split path))) [
      | inl n ↦ absurd (ground arith)
      | inr (k, n) ↦ elim (Option-cases (path_gid codec (split path))) [
        | inl m ↦ absurd (ground arith)
        | inr (g, m) ↦ elim (Option-cases (storage_path shards g k)) [
          | inl o ↦ absurd (ground arith)
          | inr (expected, o) ↦
              let in_range = path_gid-is_gid codec (split path) g m in
              let own = path_kind-codec codec (split path) k n in
              ground (arith, same_text-eq path expected, in_range, own)
        ]
      ]
    ]
