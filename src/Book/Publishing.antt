-- ===== src/Book/Publishing.antt =====
-- LogBook.tsx: post of LogBookWritePost, and its onMount.
use mulex_fk.Prelude.{ℕ, Bool, true, false, ◌&&◌, Option, none, some, List, [], ◌∷◌}
use mulex_fk.Convert.Names.{native, generic, bool, string}
use mulex_fk.Convert.Engine.{Engine, Text}
use mulex_fk.Convert.Encode.{make_data, str512}
use mulex_fk.Convert.Decode.{Output, astype}
use mulex_fk.Calls.Jobs.{Job, done, await, modify, get, attempt, ◌>>=◌, ◌>>◌}
use mulex_fk.Book.Drafts.{FileHandler, Draft, save_attachments}
use mulex_fk.Book.Reading.{is_true}

abbrev pub is_full : Text → Bool
is_full [] = false
is_full (c ∷ t) = true

-- What post takes out of localStorage; the attachments stay on the server.
abbrev pub forget_draft : Draft → Draft
forget_draft d = record d { saved_title = none; saved_body = none; saved_files = none }

module _ (E : Engine) (stringify : List FileHandler → Text) where
  open E use {encode}

  -- `metaRaw`, from the stored attachments.
  abbrev pub meta_raw : Option (List FileHandler) → List ℕ
  meta_raw none = []
  meta_raw (some files) = encode (stringify files)

  abbrev pub after_post : Bool → Job Draft Bool
  after_post false = done false
  after_post true = modify forget_draft >> done true

  abbrev pub post_full : Draft → Bool → Job Draft Bool
  post_full d false = done false
  post_full d true = do
    title ← attempt (str512 E d.title native)
    body ← attempt (make_data (encode d.body) generic)
    meta ← attempt (make_data (meta_raw d.saved_files) generic)
    res ← await "mulex::LbkPostCreate" (title ∷ body ∷ meta ∷ []) native
    flag ← attempt (astype E res bool)
    after_post (is_true E flag)

  -- Whether the page of the list is shown in the end.
  unfoldable pub post : Job Draft Bool
  post = do d ← get; post_full d (is_full d.body && is_full d.title)

module _ (E : Engine) where
  -- onMount: the path of the avatar, which is the result.
  unfoldable pub mount_write : Job Draft (Output E.Float)
  mount_write = do
    path ← await "mulex::PdbUserGetAvatarPath" [] native
    url ← attempt (astype E path string)
    modify save_attachments
    done url
