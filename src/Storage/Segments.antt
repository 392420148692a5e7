-- ===== src/Storage/Segments.antt =====
-- Splitting and joining at slashes, and taking a prefix and a suffix off.
use h2hdb_ingest.Prelude.{
  ℕ, ◌≡◌, ◌+◌, false, some, List, [], ◌∷◌, ◌++◌, ◌==◌, arith, refl, Bool-cases, inl, inr, ap,
}
use h2hdb_ingest.Prelude.Texts.{Text, same_text, same_text_refl, same_text-eq}
use h2hdb_ingest.Storage.{slash, HasNoSlash, push, split, join, strip_prefix, strip_suffix}

pub append-HasNoSlash : (a b : Text) → HasNoSlash a → HasNoSlash b → HasNoSlash (a ++ b)
append-HasNoSlash [] b h k = k
append-HasNoSlash (c ∷ a) b h k = (h.0, append-HasNoSlash a b h.1 k)

-- A text with no slash is one segment.
pub split-plain : (a : Text) → HasNoSlash a → split a ≡ a ∷ []
unfolding split
split-plain [] h = refl
split-plain (c ∷ a) h = ground (arith, split-plain a h.1, h.0)

-- A text with no slash and a slash after it are the first segment.
pub split-slash : (a b : Text) → HasNoSlash a → split (a ++ slash ∷ b) ≡ a ∷ split b
unfolding split
split-slash [] b h = refl
split-slash (c ∷ a) b h = ground (arith, split-slash a b h.1, h.0)

pub strip_prefix-append : (a b : Text) → strip_prefix a (a ++ b) ≡ some b
unfolding strip_prefix
strip_prefix-append [] b = refl
strip_prefix-append (c ∷ a) b = ground (arith, strip_prefix-append a b)

size : Text → ℕ
size [] = 0
size (c ∷ a) = size a + 1

size-append : (a b : Text) → size (a ++ b) ≡ size a + size b
unfolding size
size-append [] b = omega arith
size-append (c ∷ a) b = ground (arith, size-append a b)

-- A text with more before it is another text.
longer : (c : ℕ) (a s : Text) → same_text s (c ∷ a ++ s) ≡ false
unfolding size
longer c a s = elim (Bool-cases (same_text s (c ∷ a ++ s))) [
  | inr e ↦ e
  | inl e ↦
      let long : size s ≡ size (c ∷ a ++ s) = ap size (same_text-eq s (c ∷ a ++ s) e) in
      absurd (omega (arith, long, size-append a s))
]

pub strip_suffix-append : (s a : Text) → strip_suffix s (a ++ s) ≡ some a
unfolding strip_suffix same_text
strip_suffix-append [] [] = refl
strip_suffix-append (c ∷ s) [] = ground (arith, same_text_refl (c ∷ s))
strip_suffix-append s (c ∷ a) = rw (longer c a s, strip_suffix-append s a) refl

join-push : (c : ℕ) (ss : List Text) → join (push c ss) ≡ c ∷ join ss
unfolding join
join-push c [] = refl
join-push c (s ∷ []) = refl
join-push c (s ∷ t ∷ ss) = refl

join_after_slash : (c : ℕ) (ss : List Text) → join ([] ∷ push c ss) ≡ slash ∷ join (push c ss)
unfolding join
join_after_slash c [] = refl
join_after_slash c (s ∷ ss) = refl

-- An empty first segment is a slash at the start.
join_front : (a : Text) → join ([] ∷ split a) ≡ slash ∷ join (split a)
unfolding split join
join_front [] = refl
join_front (c ∷ a) = elim (Bool-cases (c == slash)) [
  | inl e ↦ rw e refl
  | inr e ↦ rw e (join_after_slash c (split a))
]

-- A path is the join of its segments.
pub join-split : (a : Text) → join (split a) ≡ a
unfolding split
join-split [] = unfold join in refl
join-split (c ∷ a) = elim (Bool-cases (c == slash)) [
  | inr e ↦ rw (e, join-push c (split a), join-split a) refl
  | inl e ↦ let same : c ≡ slash = ground arith in rw (e, join_front a, join-split a, same) refl
]
