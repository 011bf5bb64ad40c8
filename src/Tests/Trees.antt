-- ===== src/Tests/Trees.antt =====
-- rdbtree.ts on two keys, the path of one of them the beginning of the other's.
use mulex_fk.Prelude.{◌≡◌, refl, some, List, [], ◌∷◌}
use mulex_fk.Prelude.Keys.{same_list, number_key, list_key}
use mulex_fk.Convert.Engine.{Text}
use mulex_fk.Stores.Sets.{has}
use mulex_fk.Utils.Texts.{split_on}
use mulex_fk.Utils.Trees.{key_at, build_tree, subkeys, key_at-build_tree}
use mulex_fk.Utils.TreeKeys.{key_at-subkeys}

abbrev run : Text
run = b'/' ∷ b'r' ∷ []

abbrev run_number : Text
run_number = b'/' ∷ b'r' ∷ b'/' ∷ b'n' ∷ []

abbrev two_keys : List Text
two_keys = run_number ∷ run ∷ []

key_at-build_tree_example : key_at (build_tree two_keys) ((b'r' ∷ []) ∷ []) ≡ some run
unfolding split_on same_list
key_at-build_tree_example = key_at-build_tree two_keys ((b'r' ∷ []) ∷ [])

key_at-subkeys_example : key_at (build_tree two_keys) (subkeys run_number) ≡ some run_number
unfolding has same_list
key_at-subkeys_example = key_at-subkeys two_keys run_number (refl, (refl, tt)) refl
