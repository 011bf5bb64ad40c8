-- ===== src/Utils/TreeKeys.antt =====
-- lib/rdbtree.ts: the tree against the keys that it was built from. "Keys always start with a slash".
use mulex_fk.Prelude.{
  ℕ, ◌≡◌, refl, ◌∙◌, Option, none, some, List, [], ◌∷◌, ◌++◌, arith, if◌then◌else◌, All, Bool-cases,
  inl, inr,
}
use mulex_fk.Prelude.Keys.{◌==◌, number_key, list_key}
use mulex_fk.Convert.Engine.{Text}
use mulex_fk.Stores.Sets.{has}
use mulex_fk.Utils.Texts.{split_on, on_head}
use mulex_fk.Utils.Trees.{
  split, subkeys, text_key, path_key, last_key, key_at, build_tree, key_at-build_tree,
}

abbrev pub IsRooted : Text → Type 0
IsRooted [] = ⊥
IsRooted (c ∷ t) = c ≡ b'/'

-- A slash before each piece.
unfoldable join : List Text → Text
join [] = []
join (piece ∷ pieces) = b'/' ∷ (piece ++ join pieces)

join-on_head :
    (c : ℕ) (pieces : List Text) (t : Text)
    → join pieces ≡ b'/' ∷ t
    → join (on_head c pieces) ≡ b'/' ∷ (c ∷ t)
unfolding join
join-on_head c [] t h = cc
join-on_head c (piece ∷ pieces) t h = cc

join-split : (t : Text) → join (split t) ≡ b'/' ∷ t
unfolding split_on join
join-split [] = refl
join-split (c ∷ t) = elim (Bool-cases (c == b'/')) [
  | inl slash ↦ rw slash (ground (arith, number_key.same_iff c b'/', join-split t))
  | inr other ↦ rw other (join-on_head c (split t) t (join-split t))
]

join-subkeys : (key : Text) → IsRooted key → join (subkeys key) ≡ key
unfolding split_on
join-subkeys [] h = absurd h
join-subkeys (c ∷ t) h = rw h (join-split t)

subkeys_iff : (j k : Text) → IsRooted j → IsRooted k → (subkeys j == subkeys k) ≡ (j == k)
subkeys_iff j k hj hk = ground (
  arith,
  path_key.same_iff (subkeys j) (subkeys k),
  text_key.same_iff j k,
  join-subkeys j hj,
  join-subkeys k hk,
)

last_key-has :
    (found : Option Text) (keys : List Text) (key : Text)
    → All IsRooted keys
    → IsRooted key
    → last_key found keys (subkeys key) ≡ (if has keys key then some key else found)
unfolding has
last_key-has found [] key h r = refl
last_key-has found (k ∷ keys) key (hk, h) r =
    last_key-has (if subkeys k == subkeys key then some k else found) keys key h r
    ∙ ground (arith, subkeys_iff k key hk r, text_key.same_iff k key)

-- If all keys start with a slash, the path of such a key leads to it exactly if it is one of them.
pub key_at-subkeys :
    (keys : List Text) (key : Text)
    → All IsRooted keys
    → IsRooted key
    → key_at (build_tree keys) (subkeys key) ≡ (if has keys key then some key else none)
key_at-subkeys keys key h r = key_at-build_tree keys (subkeys key) ∙ last_key-has none keys key h r
