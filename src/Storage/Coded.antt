-- ===== src/Storage/Coded.antt =====
-- What the storage codec reads from the path that it prints.
use h2hdb_ingest.Prelude.{
  ℕ, ◌≡◌, true, false, some, List, [], ◌∷◌, ◌++◌, ◌==◌, arith, refl, Option-cases, inl, inr, ap,
  ◌∙◌,
}
use h2hdb_ingest.Prelude.Texts.{
  Text, text, same_text, same_text_refl, decimal, AreDigits, decimal-AreDigits,
  read_decimal-decimal,
}
use h2hdb_ingest.Library.Tables.{Kind, acquisition, thumbnail}
use h2hdb_ingest.Storage.{
  slash, HasNoSlash, split, Shards, third, is_gid, require_gid, str, leaf_prefix, suffix_of,
  leaf_name, path_text, storage_path, shape_kind, path_kind, leaf_of, encoded_of, read_gid,
  path_gid, storage_object_codec, first_two,
}
use h2hdb_ingest.Storage.Segments.{
  append-HasNoSlash, split-plain, split-slash, strip_prefix-append, strip_suffix-append,
}

digits-HasNoSlash : (a : Text) → AreDigits a → HasNoSlash a
digits-HasNoSlash [] h = tt
digits-HasNoSlash (c ∷ a) h = (ground (arith, h.0), digits-HasNoSlash a h.1)

suffix-HasNoSlash : (kind : Kind) → HasNoSlash (suffix_of kind)
suffix-HasNoSlash acquisition = ground arith
suffix-HasNoSlash thumbnail = tt

leaf-HasNoSlash : (gid : ℕ) (kind : Kind) → HasNoSlash (leaf_name gid kind)
unfolding str
leaf-HasNoSlash gid kind =
    append-HasNoSlash leaf_prefix (str gid ++ suffix_of kind) (ground arith) (
      append-HasNoSlash (str gid) (suffix_of kind)
        (digits-HasNoSlash (str gid) (decimal-AreDigits 19 gid)) (suffix-HasNoSlash kind))

encoded_of-leaf_name :
    (gid : ℕ) (kind : Kind) → encoded_of (leaf_name gid kind) kind ≡ some (str gid)
unfolding encoded_of
encoded_of-leaf_name gid kind = ground (
  arith,
  strip_prefix-append leaf_prefix (str gid ++ suffix_of kind),
  strip_suffix-append (suffix_of kind) (str gid),
)

read_gid-str : (gid : ℕ) → is_gid gid ≡ true → read_gid (str gid) ≡ some gid
unfolding read_gid str require_gid
read_gid-str gid h =
    let e = read_decimal-decimal 18 gid (ground arith) in
    ground (arith, e, h, same_text_refl (decimal 19 gid))

-- the segments of a path
abbrev segments_of : Text → ℕ → Text → Kind → List Text
segments_of shard c leaf acquisition =
    text "acquisitions" ∷ text "hash-v2" ∷ first_two shard ∷ (c ∷ []) ∷ leaf ∷ []
segments_of shard c leaf thumbnail =
    text "artwork"
    ∷ text "hash-v2"
    ∷ first_two shard
    ∷ (c ∷ [])
    ∷ leaf
    ∷ text "thumbnail-320.jpg"
    ∷ []

-- The three characters of a shard are no slashes.
shard-HasNoSlash :
    (shard : Text) (c : ℕ)
    → HasNoSlash shard
    → third shard ≡ some c
    → HasNoSlash (first_two shard) × ((c == slash) ≡ false)
shard-HasNoSlash [] c h e = absurd (ground arith)
shard-HasNoSlash (x ∷ []) c h e = absurd (ground arith)
shard-HasNoSlash (x ∷ y ∷ []) c h e = absurd (ground arith)
shard-HasNoSlash (x ∷ y ∷ z ∷ zs) c h e = ground (arith, h)

split-path_text :
    (shard leaf : Text) (c : ℕ) (kind : Kind)
    → HasNoSlash shard
    → third shard ≡ some c
    → HasNoSlash leaf
    → split (path_text shard c leaf kind) ≡ segments_of shard c leaf kind
unfolding split
split-path_text shard leaf c acquisition h e l =
    let (f, g) = shard-HasNoSlash shard c h e in
    rw (split-slash (first_two shard) (c ∷ slash ∷ leaf) f, g, split-plain leaf l) refl
split-path_text shard leaf c thumbnail h e l =
    let (f, g) = shard-HasNoSlash shard c h e in
    let rest : Text = c ∷ slash ∷ leaf ++ slash ∷ text "thumbnail-320.jpg" in
    let s = split-slash (first_two shard) rest f in
    let l' = split-slash leaf (text "thumbnail-320.jpg") l in ground (arith, s, g, l')

path_kind-segments_of :
    (shard leaf : Text) (c : ℕ) (kind : Kind)
    → path_kind storage_object_codec (segments_of shard c leaf kind) ≡ some kind
unfolding path_kind shape_kind same_text
path_kind-segments_of shard leaf c acquisition = refl
path_kind-segments_of shard leaf c thumbnail = refl

leaf_of-segments_of :
    (shard leaf : Text) (c : ℕ) (kind : Kind) → leaf_of kind (segments_of shard c leaf kind) ≡ leaf
leaf_of-segments_of shard leaf c acquisition = refl
leaf_of-segments_of shard leaf c thumbnail = refl

path_gid-read_gid :
    (codec : Text) (segments : List Text) (kind : Kind) (encoded : Text)
    → path_kind codec segments ≡ some kind
    → encoded_of (leaf_of kind segments) kind ≡ some encoded
    → path_gid codec segments ≡ read_gid encoded
unfolding path_gid
path_gid-read_gid codec segments kind encoded a b = ground (arith, a, b)

path_gid-segments_of :
    (shard : Text) (c gid : ℕ) (kind : Kind)
    → is_gid gid ≡ true
    → path_gid storage_object_codec (segments_of shard c (leaf_name gid kind) kind) ≡ some gid
path_gid-segments_of shard c gid kind h =
    let leaf = leaf_name gid kind in
    let segments = segments_of shard c leaf kind in
    let same : encoded_of (leaf_of kind segments) kind ≡ some (str gid) =
      ap (λ l. encoded_of l kind) (leaf_of-segments_of shard leaf c kind)
      ∙ encoded_of-leaf_name gid kind in
    path_gid-read_gid storage_object_codec segments kind (str gid)
      (path_kind-segments_of shard leaf c kind) same
    ∙ read_gid-str gid h

-- What the path of a GID and a kind is.
pub record IsCoded (shards : Shards) (gid : ℕ) (kind : Kind) (path : Text) : Type 0 where
  pub is_printed : storage_path shards gid kind ≡ some path
  pub kind_read : path_kind storage_object_codec (split path) ≡ some kind
  pub gid_read : path_gid storage_object_codec (split path) ≡ some gid

pub storage_path-IsCoded :
    (shards : Shards) (gid : ℕ) (kind : Kind)
    → is_gid gid ≡ true
    → (path : Text) × IsCoded shards gid kind path
unfolding storage_path require_gid
storage_path-IsCoded shards gid kind h =
    let shard = shards.hexdigest gid in
    let leaf = leaf_name gid kind in
    elim (Option-cases (third shard)) [
      | inl n ↦ absurd (ground (arith, shards.is_long gid, n))
      | inr (c, n) ↦
          let path = path_text shard c leaf kind in
          let e =
            split-path_text shard leaf c kind (shards.is_plain gid) n (leaf-HasNoSlash gid kind) in
          (
            path,
            record {
              is_printed = ground (arith, h, n);
              kind_read =
                  ap (path_kind storage_object_codec) e ∙ path_kind-segments_of shard leaf c kind;
              gid_read =
                  ap (path_gid storage_object_codec) e ∙ path_gid-segments_of shard c gid kind h;
            },
          )
    ]
