-- ===== src/Utils/Trees.antt =====
-- lib/rdbtree.ts: the tree of the keys' paths.
use mulex_fk.Prelude.{
  ◌≡◌, refl, ◌∙◌, ap, ◌&&◌, Option, none, some, List, [], ◌∷◌, arith, drop, if◌then◌else◌,
}
use mulex_fk.Prelude.Keys.{Key, ◌==◌, number_key, list_key}
use mulex_fk.Convert.Engine.{Text}
use mulex_fk.Utils.Texts.{split_on}

-- TNode, with the entries of its Map in the order of insertion.
mutual
  pub data TNode : Type 0 where
    node : Children → Option Text → TNode

  pub data Children : Type 0 where
    no_children : Children
    child : Text → TNode → Children → Children

-- `new TNode()`
abbrev pub new_node : TNode
new_node = node no_children none

-- `key.split('/')`
abbrev pub split : Text → List Text
split = split_on b'/'

-- `key.split('/').slice(1)`
abbrev pub subkeys : Text → List Text
subkeys key = drop 1 (split key)

-- A new node, and the new nodes that the rest of the walk puts below it.
unfoldable pub new_branch : List Text → Text → TNode
new_branch [] key = node no_children (some key)
new_branch (s ∷ path) key = node (child s (new_branch path key) no_children) none

-- The walk of one key down the tree: `put_at` at a node, `put_below` in its children.
unfoldable mutual
  unfolding new_branch

  pub put_at : TNode → List Text → Text → TNode
  put_at (node cs k) [] key = node cs (some key)
  put_at (node cs k) (s ∷ path) key = node (put_below cs s path key) k

  pub put_below : Children → Text → List Text → Text → Children
  put_below no_children s path key = child s (new_branch path key) no_children
  put_below (child n t cs) s path key =
      if n == s then child n (put_at t path key) cs else child n t (put_below cs s path key)

-- `for(const key of keys)`
unfoldable pub put_keys : TNode → List Text → TNode
unfolding put_at split_on
put_keys root [] = root
put_keys root (key ∷ keys) = put_keys (put_at root (subkeys key) key) keys

unfoldable pub build_tree : List Text → TNode
unfolding put_keys
build_tree keys = put_keys new_node keys

-- The `key` field of the node at the end of a path of children.
unfoldable mutual
  pub key_at : TNode → List Text → Option Text
  key_at (node cs k) [] = k
  key_at (node cs k) (s ∷ path) = key_below cs s path

  pub key_below : Children → Text → List Text → Option Text
  key_below no_children s path = none
  key_below (child n t cs) s path = if n == s then key_at t path else key_below cs s path

key_at_new : (path : List Text) → key_at new_node path ≡ none
unfolding key_at
key_at_new [] = refl
key_at_new (s ∷ path) = refl

abbrev pub text_key : Key Text
text_key = list_key

abbrev pub path_key : Key (List Text)
path_key = list_key

same_cons : (s r : Text) (path q : List Text) → ((s ∷ path) == (r ∷ q)) ≡ s == r && path == q
same_cons s r path q =
    ground
      (arith, path_key.same_iff (s ∷ path) (r ∷ q), path_key.same_iff path q, text_key.same_iff s r)

key_at-new_branch :
    (path : List Text) (key : Text) (q : List Text)
    → key_at (new_branch path key) q ≡ (if path == q then some key else none)
unfolding key_at new_branch
key_at-new_branch [] key [] = ground (arith, path_key.same_iff [] [])
key_at-new_branch [] key (r ∷ q) = ground (arith, path_key.same_iff [] (r ∷ q))
key_at-new_branch (s ∷ path) key [] = ground (arith, path_key.same_iff (s ∷ path) [])
key_at-new_branch (s ∷ path) key (r ∷ q) =
    ground (arith, key_at-new_branch path key q, same_cons s r path q)

mutual
  unfolding put_at key_at

  key_at-put_at :
      (t : TNode) (path : List Text) (key : Text) (q : List Text)
      → key_at (put_at t path key) q ≡ (if path == q then some key else key_at t q)
  key_at-put_at (node cs k) [] key [] = ground (arith, path_key.same_iff [] [])
  key_at-put_at (node cs k) [] key (r ∷ q) = ground (arith, path_key.same_iff [] (r ∷ q))
  key_at-put_at (node cs k) (s ∷ path) key [] = ground (arith, path_key.same_iff (s ∷ path) [])
  key_at-put_at (node cs k) (s ∷ path) key (r ∷ q) =
      ground (arith, key_below-put_below cs s path key r q, same_cons s r path q)

  key_below-put_below :
      (cs : Children) (s : Text) (path : List Text) (key : Text) (r : Text) (q : List Text)
      → key_below (put_below cs s path key) r q
        ≡ (if s == r && path == q then some key else key_below cs r q)
  key_below-put_below no_children s path key r q = ground (arith, key_at-new_branch path key q)
  key_below-put_below (child n t cs) s path key r q = ground (
    arith,
    key_at-put_at t path key q,
    key_below-put_below cs s path key r q,
    text_key.same_iff n s,
    text_key.same_iff n r,
    text_key.same_iff s r,
  )

-- The last of the keys with a path, or what was there before.
abbrev pub last_key : Option Text → List Text → List Text → Option Text
last_key found [] path = found
last_key found (key ∷ keys) path =
    last_key (if subkeys key == path then some key else found) keys path

key_at-put_keys :
    (root : TNode) (keys path : List Text)
    → key_at (put_keys root keys) path ≡ last_key (key_at root path) keys path
unfolding put_keys
key_at-put_keys root [] path = refl
key_at-put_keys root (key ∷ keys) path =
    key_at-put_keys (put_at root (subkeys key) key) keys path
    ∙ ap (λ k. last_key k keys path) (key_at-put_at root (subkeys key) key path)

-- The node that a path leads to has the last of the keys with that path, and a path that no key has
-- leads to no key.
pub key_at-build_tree :
    (keys path : List Text) → key_at (build_tree keys) path ≡ last_key none keys path
unfolding build_tree
key_at-build_tree keys path =
    key_at-put_keys new_node keys path ∙ ap (λ k. last_key k keys path) (key_at_new path)
