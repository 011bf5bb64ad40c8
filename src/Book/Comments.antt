-- ===== src/Book/Comments.antt =====
-- LogBook.tsx: LogBookComments, LogBookCommentWrite and LogBookCommentBox.
use mulex_fk.Prelude.{
  ℕ, zero, suc, ◌+◌, ◌-◌, Bool, true, false, Option, none, some, List, [], ◌∷◌, ◌++◌, length,
}
use mulex_fk.Prelude.Int.{ℤ, pos, negsuc}
use mulex_fk.Prelude.Keys.{list_key, number_key}
use mulex_fk.Convert.Names.{TypeName, native, generic, bool, string, int64, str512, cstr}
use mulex_fk.Convert.Engine.{Engine, Text, int}
use mulex_fk.Convert.Encode
use mulex_fk.Convert.Encode.{MxGenericType, make_data}
use mulex_fk.Convert.Decode.{Output, astype}
use mulex_fk.Convert.Shorthands
use mulex_fk.Convert.Unpack.{Field, unpack}
use mulex_fk.Calls.Jobs.{Job, done, await, modify, get, attempt, ◌>>=◌, ◌>>◌}
use mulex_fk.Stores.Maps
use mulex_fk.Book.Context.{count_of, each_row}
use mulex_fk.Book.Reading.{is_true}

-- A comment has the entries of a row of ['str512', 'cstr', 'str512']; an entry that the row lacks is
-- undefined.
pub record LogBookComment (F : Type 0) : Type 0 where
  pub author : Option (Field F)
  pub body : Option (Field F)
  pub date : Option (Field F)

-- The signals of LogBookComments, and the text in the box of LogBookCommentWrite with its draft in
-- localStorage.
pub record Comments (F : Type 0) : Type 0 where
  pub page : ℕ
  pub num_comments : ℤ
  pub items : List (LogBookComment F)
  pub content : Text
  pub comment_draft : Option Text

abbrev pub comments_per_page : ℕ
comments_per_page = 10

abbrev pub comment_row : List TypeName
comment_row = str512 ∷ cstr ∷ str512 ∷ []

abbrev entry : {F : Type 0} → List (Field F) → ℕ → Option (Field F)
entry [] n = none
entry (f ∷ row) zero = some f
entry (f ∷ row) (suc n) = entry row n

abbrev pub to_comment : {F : Type 0} → List (Field F) → LogBookComment F
to_comment row = record { author = entry row 0; body = entry row 1; date = entry row 2 }

-- The loop over the rows.
unfoldable pub add_comments : {F : Type 0} → List (List (Field F)) → Comments F → Comments F
add_comments [] s = s
add_comments (row ∷ rows) s =
    add_comments rows (record s { items = s.items ++ (to_comment row ∷ []) })

module _ (E : Engine) (post_id : ℤ) where
  open E use {Float, encode}

  unfoldable pub get_post_comments : Job (Comments Float) ℤ
  get_post_comments = do
    id ← attempt (Shorthands.int32 E (int post_id) native)
    nc ← await "mulex::LbkGetNumComments" (id ∷ []) native
    count ← attempt (astype E nc int64)
    attempt (count_of count)

  -- `BigInt(page() - 1)`; pages are counted from 1.
  unfoldable pub update_comments : Job (Comments Float) (Unit {0})
  update_comments = do
    s ← get
    id ← attempt (Shorthands.int32 E (int post_id) native)
    limit ← attempt (Shorthands.int64 E (pos comments_per_page) native)
    page ← attempt (Shorthands.int64 E (pos (s.page - 1)) native)
    res ← await "mulex::LbkGetComments" (id ∷ limit ∷ page ∷ []) generic
    modify (λ s. record s { items = [] })
    rows ← attempt (each_row E (unpack E (length res.bytes.buffer + 1) res comment_row))
    modify (add_comments rows)

  abbrev pub update_if_any : ℤ → Job (Comments Float) (Unit {0})
  update_if_any (pos zero) = done tt
  update_if_any (pos (suc n)) = update_comments
  update_if_any (negsuc n) = done tt

  -- onMount of LogBookComments.
  unfoldable pub mount_comments : Job (Comments Float) (Unit {0})
  mount_comments = do
    nc ← get_post_comments
    modify (λ s. record s { num_comments = nc })
    update_if_any nc

  -- The effect of a change of the items.
  unfoldable pub items_effect : Job (Comments Float) (Unit {0})
  items_effect = do nc ← get_post_comments; modify (λ s. record s { num_comments = nc })

  -- The pagination, with the effect of a change of the page.
  unfoldable pub set_page : ℕ → Job (Comments Float) (Unit {0})
  set_page page = do modify (λ s. record s { page = page }); update_comments

  abbrev pub after_comment : Bool → Job (Comments Float) (Unit {0})
  after_comment false = done tt
  after_comment true = do
    modify (λ s. record s { comment_draft = none })
    modify (λ s. record s { content = [] })
    update_comments

  -- publishComment.
  unfoldable pub publish_comment : Job (Comments Float) (Unit {0})
  publish_comment = do
    s ← get
    id ← attempt (Shorthands.int32 E (int post_id) native)
    body ← attempt (make_data (encode s.content) generic)
    res ← await "mulex::LbkCommentCreate" (id ∷ body ∷ []) native
    flag ← attempt (astype E res bool)
    after_comment (is_true E flag)

-- `cache.get('user_avatar')`, a map that is made with its first entry.
abbrev pub Avatars : Type 0 → Type 0
Avatars F = Option (List (Text × Output F))

abbrev pub known_avatar : {F : Type 0} → Avatars F → Text → Option (Output F)
known_avatar none author = none
known_avatar (some paths) author = Maps.get paths author

abbrev pub add_avatar : {F : Type 0} → Text → Output F → Avatars F → Avatars F
add_avatar author path none = some ((author, path) ∷ [])
add_avatar author path (some paths) = some (Maps.put paths author path)

module _ (E : Engine) where
  open E use {Float}

  abbrev pub ask_avatar : Text → Option (Output Float) → Job (Avatars Float) (Output Float)
  ask_avatar author (some path) = done path
  ask_avatar author none = do
    name ← attempt (Encode.str512 E author native)
    res ← await "mulex::PdbUserGetOtherAvatarPath" (name ∷ []) native
    path ← attempt (astype E res string)
    modify (add_avatar author path)
    done path

  -- onMount of LogBookCommentBox: the path that it shows.
  unfoldable pub mount_box : Text → Job (Avatars Float) (Output Float)
  mount_box author = do paths ← get; ask_avatar author (known_avatar paths author)
