-- ===== src/Library/Tokens/Shape.antt =====
-- What a row of the token table looks like in each state, and what a step may change in it.
use h2hdb_ingest.Prelude.{
  ℕ, ◌≡◌, ◌≤◌, Bool, true, false, not, ◌&&◌, ◌||◌, none, some, List, [], ◌∷◌, arith, All, is_some,
  ◌==◌, if◌then◌else◌,
}
use h2hdb_ingest.Library.State.{TokenState, writing, staged, installed, released, Token}
use h2hdb_ingest.Library.Tables.{StorageKey, same_key}
use h2hdb_ingest.Library.Protection.{find_token, is_active, is_stage_leaf, slot_taken, insert_token}

-- the columns that a state allows
abbrev pub is_shaped_in : Token → TokenState → Bool
is_shaped_in t writing = is_stage_leaf t.token t.key t.staging_leaf && not (is_some t.identity)
is_shaped_in t staged = is_stage_leaf t.token t.key t.staging_leaf && is_some t.identity
is_shaped_in t installed = not (is_some t.staging_leaf) && not (is_some t.identity)
is_shaped_in t released =
    is_stage_leaf t.token t.key t.staging_leaf
    || not (is_some t.staging_leaf) && not (is_some t.identity)

abbrev pub is_shaped : Token → Bool
is_shaped t = is_shaped_in t t.state

abbrev pub AreShaped : List Token → Type 0
AreShaped = All (λ t. is_shaped t ≡ true)

-- every token has one row
abbrev pub AreDistinct : List Token → Type 0
AreDistinct [] = Unit
AreDistinct (t ∷ ts) = (find_token t.token ts ≡ none) × AreDistinct ts

-- at most one row under a storage path is WRITING or STAGED
abbrev pub AreSeparate : List Token → Type 0
AreSeparate [] = Unit
AreSeparate (t ∷ ts) = ((is_active t.state && slot_taken t.key ts) ≡ false) × AreSeparate ts

pub record AreValid (ts : List Token) : Type 0 where
  pub shaped : AreShaped ts
  pub distinct : AreDistinct ts
  pub separate : AreSeparate ts

-- WRITING, STAGED, INSTALLED, RELEASED
abbrev pub progress : TokenState → ℕ
progress writing = 0
progress staged = 1
progress installed = 2
progress released = 3

-- the same object under the same token, no less far
pub record Later (t u : Token) : Type 0 where
  pub token : u.token ≡ t.token
  pub key : u.key ≡ t.key
  pub digest : u.digest ≡ t.digest
  pub size_bytes : u.size_bytes ≡ t.size_bytes
  pub forward : progress t.state ≤ progress u.state

-- what may become of a row
pub record Swap (t u : Token) : Type 0 where
  pub later : Later t u
  pub shape : is_shaped t ≡ true → is_shaped u ≡ true
  pub slot : is_active u.state ≡ true → is_active t.state ≡ true

pub Later-refl : (t : Token) → Later t t
Later-refl t = ground arith

pub Later-trans : (t u v : Token) → Later t u → Later u v → Later t v
Later-trans t u v h k = ground arith

same_key-sym : (a b : StorageKey) → same_key a b ≡ same_key b a
unfolding same_key
same_key-sym a b = ground arith

same_key_trans :
    (a b c : StorageKey) → same_key a b ≡ true → same_key b c ≡ true → same_key a c ≡ true
unfolding same_key
same_key_trans a b c h k = ground arith

-- Insertion of a row under a token that has none.
pub find_token-insert :
    (n : ℕ) (t : Token) (ts : List Token)
    → find_token t.token ts ≡ none
    → find_token n (insert_token t ts) ≡ (if t.token == n then some t else find_token n ts)
unfolding find_token insert_token
find_token-insert n t [] h = ground arith
find_token-insert n t (x ∷ xs) h = ground (arith, find_token-insert n t xs)

pub slot_taken-insert :
    (k : StorageKey) (t : Token) (ts : List Token)
    → slot_taken k (insert_token t ts) ≡ (same_key t.key k && is_active t.state || slot_taken k ts)
unfolding slot_taken insert_token
slot_taken-insert k t [] = ground arith
slot_taken-insert k t (x ∷ xs) = ground (arith, slot_taken-insert k t xs)

insert-AreShaped :
    (t : Token) (ts : List Token)
    → is_shaped t ≡ true
    → AreShaped ts
    → AreShaped (insert_token t ts)
unfolding insert_token
insert-AreShaped t [] s h = ground arith
insert-AreShaped t (x ∷ xs) s h = ground (arith, insert-AreShaped t xs s h.1)

insert-AreDistinct :
    (t : Token) (ts : List Token)
    → find_token t.token ts ≡ none
    → AreDistinct ts
    → AreDistinct (insert_token t ts)
unfolding insert_token find_token
insert-AreDistinct t [] n h = ground arith
insert-AreDistinct t (x ∷ xs) n h =
    ground (arith, insert-AreDistinct t xs, find_token-insert x.token t xs)

-- A key that shares its path with no active row.
slot_taken-same :
    (a b : StorageKey) (ts : List Token) → same_key a b ≡ true → slot_taken a ts ≡ slot_taken b ts
unfolding slot_taken
slot_taken-same a b [] h = ground arith
slot_taken-same a b (x ∷ xs) h = ground (
  arith,
  slot_taken-same a b xs h,
  same_key_trans x.key a b,
  same_key_trans x.key b a,
  same_key-sym a b,
)

insert-AreSeparate :
    (t : Token) (ts : List Token)
    → (is_active t.state && slot_taken t.key ts) ≡ false
    → AreSeparate ts
    → AreSeparate (insert_token t ts)
unfolding insert_token slot_taken
insert-AreSeparate t [] n h = ground arith
insert-AreSeparate t (x ∷ xs) n h = ground (
  arith,
  insert-AreSeparate t xs,
  slot_taken-insert x.key t xs,
  slot_taken-same t.key x.key xs,
  same_key-sym t.key x.key,
)

pub insert-AreValid :
    (t : Token) (ts : List Token)
    → is_shaped t ≡ true
    → find_token t.token ts ≡ none
    → (is_active t.state && slot_taken t.key ts) ≡ false
    → AreValid ts
    → AreValid (insert_token t ts)
insert-AreValid t ts s n a h = record {
  shaped = insert-AreShaped t ts s h.shaped;
  distinct = insert-AreDistinct t ts n h.distinct;
  separate = insert-AreSeparate t ts a h.separate;
}
