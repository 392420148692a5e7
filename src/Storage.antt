-- ===== src/Storage.antt =====
-- The paths of stored objects (_storage_paths.py) and the keys made of them (storage.py). Every
-- failure of the codec is a ValueError, so an operation that fails returns none.
pub mod Segments
pub mod Coded
pub mod RoundTrip
pub mod Keys
use h2hdb_ingest.Prelude.{
  ℕ, zero, suc, ◌≡◌, ◌^◌, Bool, true, false, not, ◌&&◌, Option, none, some, List, [], ◌∷◌, ◌++◌,
  All, ltb, leb, ◌==◌, if◌then◌else◌, is_some,
}
use h2hdb_ingest.Prelude.Texts.{Text, text, same_text, decimal, read_decimal}
use h2hdb_ingest.Library.Tables.{Kind, acquisition, thumbnail}

abbrev pub storage_object_codec : Text
storage_object_codec = text "managed-filesystem-v2"

abbrev pub slash : ℕ
slash = 47

abbrev pub HasNoSlash : Text → Type 0
HasNoSlash = All (λ c. (c == slash) ≡ false)

-- `path.split("/")`
abbrev pub push : ℕ → List Text → List Text
push c [] = (c ∷ []) ∷ []
push c (s ∷ ss) = (c ∷ s) ∷ ss

unfoldable pub split : Text → List Text
split [] = [] ∷ []
split (c ∷ cs) = let rest = split cs in if c == slash then [] ∷ rest else push c rest

-- `"/".join(segments)`
unfoldable pub join : List Text → Text
join [] = []
join (s ∷ []) = s
join (s ∷ t ∷ ss) = s ++ slash ∷ join (t ∷ ss)

-- `shard[2]`
abbrev pub third : Text → Option ℕ
third (a ∷ b ∷ c ∷ cs) = some c
third _ = none

-- `shard[:2]`
abbrev pub first_two : Text → Text
first_two (a ∷ b ∷ cs) = a ∷ b ∷ []
first_two cs = cs

-- The hexadecimal SHA-256 digest of the shard domain and the eight bytes of a GID: it has more than
-- two characters, and no slash among them.
pub record Shards : Type 0 where
  pub hexdigest : ℕ → Text
  pub is_long : (gid : ℕ) → is_some (third (hexdigest gid)) ≡ true
  pub is_plain : (gid : ℕ) → HasNoSlash (hexdigest gid)

-- `1 <= value < 1 << 63`
abbrev pub is_gid : ℕ → Bool
is_gid gid = leb 1 gid && ltb gid (2 ^ 63)

unfoldable pub require_gid : ℕ → Option ℕ
require_gid gid = if is_gid gid then some gid else none

-- `str(gid)`: a GID has at most 19 digits
unfoldable pub str : ℕ → Text
str gid = decimal 19 gid

abbrev pub leaf_prefix : Text
leaf_prefix = text "h2h-"

abbrev pub suffix_of : Kind → Text
suffix_of acquisition = text ".cbz"
suffix_of thumbnail = []

abbrev pub leaf_name : ℕ → Kind → Text
leaf_name gid kind = leaf_prefix ++ str gid ++ suffix_of kind

unfoldable pub artifact_name : ℕ → Option Text
artifact_name gid = if is_gid gid then some (leaf_name gid acquisition) else none

-- the two f-strings
abbrev pub path_text : Text → ℕ → Text → Kind → Text
path_text shard c leaf acquisition =
    text "acquisitions/hash-v2/" ++ first_two shard ++ slash ∷ c ∷ slash ∷ leaf
path_text shard c leaf thumbnail =
    text "artwork/hash-v2/"
    ++ first_two shard
    ++ slash ∷ c ∷ slash ∷ leaf
    ++ text "/thumbnail-320.jpg"

unfoldable pub storage_path : Shards → ℕ → Kind → Option Text
storage_path shards gid kind = elim (require_gid gid) [
  | none ↦ none
  | some g ↦ elim (third (shards.hexdigest g)) [
    | none ↦ none
    | some c ↦ some (path_text (shards.hexdigest g) c (leaf_name g kind) kind)
  ]
]

-- `match segments`
unfoldable pub shape_kind : List Text → Option Kind
shape_kind (a ∷ b ∷ c ∷ d ∷ e ∷ []) =
    if same_text a (text "acquisitions") && same_text b (text "hash-v2")
    then some acquisition
    else none
shape_kind (a ∷ b ∷ c ∷ d ∷ e ∷ f ∷ []) =
    if same_text a (text "artwork")
      && (same_text b (text "hash-v2") && same_text f (text "thumbnail-320.jpg"))
    then some thumbnail
    else none
shape_kind _ = none

unfoldable pub path_kind : Text → List Text → Option Kind
path_kind codec segments =
    if same_text codec storage_object_codec then shape_kind segments else none

-- `segments[-1]` and `segments[-2]`, where there are as many
abbrev pub last_segment : List Text → Text
last_segment [] = []
last_segment (s ∷ []) = s
last_segment (s ∷ t ∷ ss) = last_segment (t ∷ ss)

abbrev pub last_but_one : List Text → Text
last_but_one [] = []
last_but_one (s ∷ []) = []
last_but_one (s ∷ t ∷ []) = s
last_but_one (s ∷ t ∷ u ∷ ss) = last_but_one (t ∷ u ∷ ss)

abbrev pub leaf_of : Kind → List Text → Text
leaf_of acquisition segments = last_segment segments
leaf_of thumbnail segments = last_but_one segments

-- what stands after a prefix
unfoldable pub strip_prefix : Text → Text → Option Text
strip_prefix [] b = some b
strip_prefix (c ∷ a) [] = none
strip_prefix (c ∷ a) (d ∷ b) = let rest = strip_prefix a b in if c == d then rest else none

abbrev pub cons_to : ℕ → Option Text → Option Text
cons_to c none = none
cons_to c (some t) = some (c ∷ t)

-- what stands before a suffix
unfoldable pub strip_suffix : Text → Text → Option Text
strip_suffix s [] = if same_text s [] then some [] else none
strip_suffix s (c ∷ b) =
    let rest = strip_suffix s b in if same_text s (c ∷ b) then some [] else cons_to c rest

-- `leaf[4 : len(leaf) - len(suffix) if suffix else None]` of a leaf with that prefix and suffix
unfoldable pub encoded_of : Text → Kind → Option Text
encoded_of leaf kind = elim (strip_prefix leaf_prefix leaf) [
  | none ↦ none
  | some rest ↦ strip_suffix (suffix_of kind) rest
]

-- `int(encoded)` where the result is canonical: any other text that it reads is refused below
unfoldable pub read_gid : Text → Option ℕ
read_gid encoded = elim (read_decimal encoded) [
  | none ↦ none
  | some n ↦ elim (require_gid n) [
    | none ↦ none
    | some gid ↦ if same_text encoded (str gid) then some gid else none
  ]
]

unfoldable pub path_gid : Text → List Text → Option ℕ
path_gid codec segments = elim (path_kind codec segments) [
  | none ↦ none
  | some kind ↦ elim (encoded_of (leaf_of kind segments) kind) [
    | none ↦ none
    | some encoded ↦ read_gid encoded
  ]
]

abbrev pub agreed : Text → Option Text → ℕ → Kind → Option (ℕ × Kind)
agreed path none gid kind = none
agreed path (some expected) gid kind = if same_text path expected then some (gid, kind) else none

unfoldable pub validate_storage_path : Shards → Text → Text → Option (ℕ × Kind)
validate_storage_path shards codec path = elim (path_kind codec (split path)) [
  | none ↦ none
  | some kind ↦ elim (path_gid codec (split path)) [
    | none ↦ none
    | some gid ↦ agreed path (storage_path shards gid kind) gid kind
  ]
]

-- `StorageObjectKey` of the h2hdb package: a codec and the segments of a path
pub record StorageObjectKey : Type 0 where
  pub codec : Text
  pub segments : List Text

-- `acquisition_storage_key` and `thumbnail_storage_key`
unfoldable pub storage_key : Shards → ℕ → Kind → Option StorageObjectKey
storage_key shards gid kind = elim (storage_path shards gid kind) [
  | none ↦ none
  | some path ↦ some (record { codec = storage_object_codec; segments = split path })
]

-- The checks of `StorageObjectKey.__post_init__` are the first argument.
unfoldable pub validate_storage_key :
    (StorageObjectKey → Bool) → Shards → StorageObjectKey → Option StorageObjectKey
validate_storage_key is_well_formed shards key =
    if is_well_formed key && is_some (validate_storage_path shards key.codec (join key.segments))
    then some key
    else none

abbrev pub storage_key_resource_kind : StorageObjectKey → Option Kind
storage_key_resource_kind key = path_kind key.codec key.segments

abbrev pub storage_key_gid : StorageObjectKey → Option ℕ
storage_key_gid key = path_gid key.codec key.segments
