-- ===== src/Book/Posts.antt =====
-- LogBook.tsx: fetchExtension, modifyBodyFilePaths, addPost and deletePost.
use mulex_fk.Prelude.{
  ℕ, zero, suc, ◌-◌, Bool, false, Option, none, some, List, [], ◌∷◌, ◌++◌, length, if◌then◌else◌,
}
use mulex_fk.Prelude.Int.{ℤ}
use mulex_fk.Prelude.Keys.{number_key, int_key, list_key, ◌==◌}
use mulex_fk.Convert.Engine.{Text}
use mulex_fk.Stores.Sets
use mulex_fk.Utils.Texts.{starts_with}
use mulex_fk.Book.Drafts.{FileHandler}

-- What stands behind the first '.', if there is one.
unfoldable pub fetch_extension : Text → Text
fetch_extension [] = []
fetch_extension (c ∷ name) = if c == b'.' then name else fetch_extension name

-- `text.replaceAll(pattern, by)` for a pattern that is not empty; the first argument is what is left
-- of an occurrence.
unfoldable pub replace_all : ℕ → Text → Text → Text → Text
unfolding starts_with
replace_all skip pattern by [] = []
replace_all (suc skip) pattern by (c ∷ t) = replace_all skip pattern by t
replace_all zero pattern by (c ∷ t) =
    let rest = replace_all (length pattern - 1) pattern by t in
    let next = replace_all zero pattern by t in
    if starts_with pattern (c ∷ t) then by ++ rest else c ∷ next

abbrev pub replace_path : Option Text → FileHandler → Text → Text
replace_path none file body = body
replace_path (some path) file body = replace_all 0 file.local_name path body

unfoldable pub modify_body_file_paths : Text → List FileHandler → Text
unfolding replace_all
modify_body_file_paths body [] = body
modify_body_file_paths body (file ∷ files) =
    modify_body_file_paths (replace_path file.server_path file body) files

pub record LogBookPost : Type 0 where
  pub id : ℤ
  pub selected : Bool
  pub body : Option Text
  pub meta : List FileHandler
  pub title : Text
  pub user : Text
  pub date : Text
  pub file_types : List Text

abbrev pub push_extension : Text → List Text → List Text
push_extension [] extensions = extensions
push_extension (c ∷ t) extensions = (c ∷ t) ∷ extensions

-- The extensions of the files, those that are empty left out.
unfoldable pub extensions_of : List FileHandler → List Text
unfolding fetch_extension
extensions_of [] = []
extensions_of (file ∷ files) =
    push_extension (fetch_extension file.local_name) (extensions_of files)

-- `metadata` is the object that the JSON text of the post says.
unfoldable pub add_post :
    ℤ
    → (user title date : Text) → (metadata : List FileHandler) → List LogBookPost
    → List LogBookPost
unfolding extensions_of
add_post id user title date metadata posts =
    posts
    ++ (record {
      id = id;
      selected = false;
      body = none;
      meta = metadata;
      title = title;
      user = user;
      date = date;
      file_types = Sets.of_values (extensions_of metadata);
    }
        ∷ [])

unfoldable pub delete_post : ℤ → List LogBookPost → List LogBookPost
delete_post id [] = []
delete_post id (p ∷ posts) = if p.id == id then delete_post id posts else p ∷ delete_post id posts
