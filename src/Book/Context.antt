-- ===== src/Book/Context.antt =====
-- LogBook.tsx: what the parts of the page share (LogBookContext, and the signals of LogBookControls), the
-- pages of posts, and the post that is opened.
use mulex_fk.Prelude.{
  ℕ, zero, suc, ◌+◌, ◌-◌, ◌/◌, Bool, true, false, ◌||◌, Option, List, [], ◌∷◌, length, ltb, ◌==◌,
  if◌then◌else◌,
}
use mulex_fk.Prelude.Int.{ℤ, pos, negsuc}
use mulex_fk.Prelude.Keys.{number_key}
use mulex_fk.Prelude.Results.{Result, ok, throw, type_error}
use mulex_fk.Convert.Names.{TypeName, native, generic, int32, int64, str512, bytearray}
use mulex_fk.Convert.Engine.{Engine, Text, int}
use mulex_fk.Convert.Encode
use mulex_fk.Convert.Encode.{MxGenericType}
use mulex_fk.Convert.Decode.{Output, bigint, null, astype}
use mulex_fk.Convert.Shorthands
use mulex_fk.Convert.Unpack
use mulex_fk.Convert.Unpack.{Unpacked, Field, rows, unpack}
use mulex_fk.Calls.Jobs.{Job, done, await, modify, get, attempt, ◌>>=◌, ◌>>◌}
use mulex_fk.Book.Drafts.{FileHandler}
use mulex_fk.Book.Posts.{LogBookPost, add_post}

pub data LogBookPageType : Type 0 where
  list_page edit_page read_page : LogBookPageType

pub data Toast : Type 0 where
  failed : (no_permission : Bool) → Toast
  deleted : (num_del : ℕ) → Toast

-- The signals and stores of LogBookContextProvider and of LogBookControls, and the toasts shown.
pub record Book : Type 0 where
  pub page_posts : List LogBookPost
  pub new_post_page : LogBookPageType
  pub read_page_id : Option ℤ
  pub num_posts : ℤ
  pub query : Text
  pub selection : Bool
  pub selected_ids : List ℤ
  pub toasts : List Toast

abbrev pub clear_posts : Book → Book
clear_posts b = record b { page_posts = [] }

-- The ids of the posts that are selected.
unfoldable pub selected_of : List LogBookPost → List ℤ
selected_of [] = []
selected_of (p ∷ posts) = if p.selected then p.id ∷ selected_of posts else selected_of posts

abbrev pub is_some_id : List ℤ → Bool
is_some_id [] = false
is_some_id (id ∷ ids) = true

-- The effect of LogBookControls, which runs at each change of the posts.
abbrev pub select_effect : Book → Book
select_effect b = record b {
  selection = is_some_id (selected_of b.page_posts);
  selected_ids = selected_of b.page_posts;
}

-- `setPagePosts("items", index(), "selected", checked)`, for the index of a post that is there.
unfoldable pub check_post : ℕ → Bool → List LogBookPost → List LogBookPost
check_post index checked [] = []
check_post zero checked (p ∷ posts) = record p { selected = checked } ∷ posts
check_post (suc index) checked (p ∷ posts) = p ∷ check_post index checked posts

abbrev pub posts_per_page : ℕ
posts_per_page = 25

-- `Math.ceil(n / POSTS_PER_PAGE)`, and 0 for a negative count: each is below every page.
abbrev pub page_count : ℤ → ℕ
page_count (pos n) = (n + (posts_per_page - 1)) / posts_per_page
page_count (negsuc n) = 0

unfoldable pub clamp_page : (page : ℕ) (num_posts : ℤ) → ℕ
clamp_page page num_posts = if page == 0 || ltb (page_count num_posts) page then 0 else page - 1

-- `Number(res.astype('int64'))`, for what astype gives of a word, and of an empty value, which is 0.
abbrev pub count_of : {F : Type 0} → Output F → Result ℤ
count_of (bigint n) = ok n
count_of null = ok (pos 0)
count_of _ = throw type_error

abbrev pub post_row : List TypeName
post_row = int32 ∷ str512 ∷ str512 ∷ str512 ∷ bytearray ∷ []

module _ (E : Engine) where
  open E use {Float, decode}

  -- A row of ['int32', 'str512', 'str512', 'str512', 'bytearray'], added by addPost; `parse` is JSON.parse
  -- on the text of the attachments, with the throw of a text that is no such object.
  abbrev pub add_row :
      (parse : Text → Result (List FileHandler))
      → List (Field Float)
      → List LogBookPost
      → Result (List LogBookPost)
  add_row parse
        (Unpack.number (int id)
          ∷ Unpack.text user
          ∷ Unpack.text title
          ∷ Unpack.text date
          ∷ Unpack.bytes meta
          ∷ [])
        posts =
      elim (parse (decode meta)) [
        | ok metadata ↦ ok (add_post id user title date metadata posts)
        | throw e ↦ throw e
      ]
  add_row parse _ posts = throw type_error

  -- The loop over the rows, each of which changes the store before the next.
  unfoldable pub add_rows :
      (parse : Text → Result (List FileHandler)) → List (List (Field Float)) → Job Book (Unit {0})
  add_rows parse [] = done tt
  add_rows parse (r ∷ rs) = do
    b ← get
    posts ← attempt (add_row parse r b.page_posts)
    modify (λ s. select_effect (record s { page_posts = posts }))
    add_rows parse rs

  -- `for(const post of posts)` on what unpack returns.
  abbrev pub each_row : {F : Type 0} → Unpacked F → Result (List (List (Field F)))
  each_row (rows rs) = ok rs
  each_row (Unpack.throws e) = throw e
  each_row _ = throw type_error

  abbrev pub show_posts : (Text → Result (List FileHandler)) → MxGenericType → Job Book (Unit {0})
  show_posts parse res = do
    modify (λ s. select_effect (clear_posts s))
    posts ← attempt (each_row (unpack E (length res.bytes.buffer + 1) res post_row))
    add_rows parse posts

  unfoldable pub fetch_all : (Text → Result (List FileHandler)) → ℕ → Job Book (Unit {0})
  fetch_all parse page = do
    limit ← attempt (Shorthands.uint64 E (pos posts_per_page) native)
    at ← attempt (Shorthands.uint64 E (pos page) native)
    res ← await "mulex::LbkGetEntriesPage" (limit ∷ at ∷ []) generic
    show_posts parse res

  unfoldable pub fetch_query : (Text → Result (List FileHandler)) → ℕ → Job Book (Unit {0})
  fetch_query parse page = do
    b ← get
    text ← attempt (Encode.str512 E b.query native)
    limit ← attempt (Shorthands.uint64 E (pos posts_per_page) native)
    at ← attempt (Shorthands.uint64 E (pos page) native)
    res ← await "mulex::LbkGetEntriesPageSearch" (text ∷ limit ∷ at ∷ []) generic
    show_posts parse res

  abbrev fetch_page : (Text → Result (List FileHandler)) → Text → ℕ → Job Book (Unit {0})
  fetch_page parse [] page = fetch_all parse page
  fetch_page parse (c ∷ t) page = fetch_query parse page

  -- The effect of LogBookTable.
  unfoldable pub page_effect : (Text → Result (List FileHandler)) → ℕ → Job Book (Unit {0})
  page_effect parse page = do b ← get; fetch_page parse b.query (clamp_page page b.num_posts)

  -- onMount of LogBookTable.
  unfoldable pub mount_table : Job Book (Unit {0})
  mount_table = do
    modify (λ s. select_effect (clear_posts s))
    text ← attempt (Encode.str512 E [] native)
    res ← await "mulex::LbkGetNumEntriesWithCondition" (text ∷ []) native
    count ← attempt (astype E res int64)
    n ← attempt (count_of count)
    modify (λ s. record s { num_posts = n })

  -- `queryFunc` of LogBookControls.
  unfoldable pub query_func : Text → Job Book ℤ
  query_func text = do
    condition ← attempt (Encode.str512 E text native)
    res ← await "mulex::LbkGetNumEntriesWithCondition" (condition ∷ []) native
    count ← attempt (astype E res int64)
    nposts ← attempt (count_of count)
    modify (λ s. record s { num_posts = nposts })
    modify (λ s. record s { query = text })
    done nposts
