-- ===== src/Book/Reading.antt =====
-- LogBook.tsx: opening a post (onPostClick, LogBookReadPost) and deleting posts (deletePosts).
use mulex_fk.Prelude.{
  ◌+◌, ℕ, Bool, true, false, Option, none, some, List, [], ◌∷◌, ◌++◌, if◌then◌else◌,
}
use mulex_fk.Prelude.Int.{ℤ}
use mulex_fk.Prelude.Keys.{int_key, number_key, ◌==◌}
use mulex_fk.Prelude.Results.{Result, ok, throw, type_error}
use mulex_fk.Convert.Names.{native, generic, bool, string}
use mulex_fk.Convert.Engine.{Engine, Text, int}
use mulex_fk.Convert.Encode.{MxGenericType}
use mulex_fk.Convert.Decode.{Output, boolean, booleans, text, astype}
use mulex_fk.Convert.Shorthands
use mulex_fk.Calls.Jobs.{Job, done, await, modify, get, attempt, caught, ◌>>=◌, ◌>>◌}
use mulex_fk.Book.Posts.{LogBookPost, delete_post}
use mulex_fk.Book.Context.{Book, read_page, failed, deleted, select_effect, is_some_id}

unfoldable pub find_post : ℤ → List LogBookPost → Option LogBookPost
find_post id [] = none
find_post id (p ∷ posts) = if p.id == id then some p else find_post id posts

-- `setPagePosts("items", pagePosts.items.findIndex(p => p.id === id), "body", body)`. A store has no
-- index -1, and throws.
unfoldable pub set_body : ℤ → Text → List LogBookPost → Result (List LogBookPost)
set_body id body [] = throw type_error
set_body id body (p ∷ posts) = elim (p.id == id) [
  | true ↦ ok (record p { body = some body } ∷ posts)
  | false ↦ elim (set_body id body posts) [ ok rest ↦ ok (p ∷ rest) | throw e ↦ throw e ]
]

-- `!post.body`, of an empty body, too.
abbrev pub has_body : Option Text → Bool
has_body none = false
has_body (some []) = false
has_body (some (c ∷ t)) = true

abbrev pub open_post : ℤ → Job Book (Unit {0})
open_post id = modify (λ s. record s { read_page_id = some id; new_post_page = read_page })

module _ (E : Engine) where
  open E use {Float}

  -- What astype gives for a string; null for an empty value.
  abbrev pub content_of : Output Float → Text
  content_of (text t) = t
  content_of _ = []

  -- The reply to `LbkPostRead`.
  abbrev pub show_body : ℤ → MxGenericType → Job Book (Unit {0})
  show_body id res = do
    content ← attempt (astype E res string)
    b ← get
    posts ← attempt (set_body id (content_of content) b.page_posts)
    modify (λ s. select_effect (record s { page_posts = posts }))
    open_post id

  unfoldable pub on_post_click : LogBookPost → Job Book (Unit {0})
  on_post_click post = elim (has_body post.body) [
    | true ↦ open_post post.id
    | false ↦
        (attempt (Shorthands.int32 E (int post.id) native) >>= λ id.
        await "mulex::LbkPostRead" (id ∷ []) generic >>= λ res. elim (res.bytes.byte_length == 0) [
          | true ↦ done tt
          | false ↦ show_body post.id res
        ])
  ]

  -- `!res.astype('bool')`, of a boolean, of an array of them, or of the null of an empty value.
  abbrev pub is_true : Output Float → Bool
  is_true (boolean b) = b
  is_true (booleans bs) = true
  is_true _ = false

  -- The `try` block, and whether the server has deleted the post.
  abbrev pub after_delete : ℤ → Bool → Job Book Bool
  after_delete id false = done false
  after_delete id true = do
    modify (λ s. select_effect (record s { page_posts = delete_post id s.page_posts }))
    done true

  unfoldable pub try_delete : ℤ → Job Book Bool
  try_delete id = do
    post ← attempt (Shorthands.int32 E (int id) native)
    res ← await "mulex::LbkPostDelete" (post ∷ []) native
    flag ← attempt (astype E res bool)
    after_delete id (is_true flag)

-- `fdeletions`, whether `errorMsg` is set, and `numDel`.
pub record Deletions : Type 0 where
  pub fdeletions : List ℤ
  pub no_permission : Bool
  pub num_del : ℕ

abbrev pub no_deletions : Deletions
no_deletions = record { fdeletions = []; no_permission = false; num_del = 0 }

-- One round of the loop, on what its `try` comes to.
abbrev pub count_deletion : ℤ → Result Bool → Deletions → Deletions
count_deletion id (ok true) d = record d { num_del = d.num_del + 1 }
count_deletion id (ok false) d = record d { fdeletions = d.fdeletions ++ (id ∷ []) }
count_deletion id (throw e) d = record d {
  fdeletions = d.fdeletions ++ (id ∷ []);
  no_permission = true;
}

-- The two setters, and the toast.
abbrev pub report_deletions : Deletions → Book → Book
report_deletions d b = record b {
  selected_ids = d.fdeletions;
  selection = is_some_id d.fdeletions;
  toasts =
      b.toasts
      ++ ((if is_some_id d.fdeletions then failed d.no_permission else deleted d.num_del) ∷ []);
}

module _ (E : Engine) where
  unfoldable pub delete_each : List ℤ → Deletions → Job Book Deletions
  delete_each [] d = done d
  delete_each (id ∷ ids) d = do
    r ← caught (try_delete E id)
    delete_each ids (count_deletion id r d)

  unfoldable pub delete_posts : Job Book (Unit {0})
  delete_posts = do
    b ← get
    d ← delete_each b.selected_ids no_deletions
    modify (report_deletions d)
