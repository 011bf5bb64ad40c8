-- ===== src/Book/Drafts.antt =====
-- LogBook.tsx: the state of LogBookWritePost with the draft that the browser stores.
use mulex_fk.Prelude.{
  ℕ, suc, Bool, true, false, Option, none, some, List, [], ◌∷◌, ◌++◌, length, ◌==◌, if◌then◌else◌,
}
use mulex_fk.Convert.Names.{native}
use mulex_fk.Convert.Engine.{Engine, Text}
use mulex_fk.Convert.Encode.{str512}
use mulex_fk.Calls.Jobs.{Job, rpc, done, launch, modify, get, attempt, ◌>>=◌, ◌>>◌}

-- LogBookFileHandler; the file itself is an argument of its upload. `uploaded` is the number of the
-- bytes that `uploadProgress` is the share of.
pub record FileHandler : Type 0 where
  pub id : ℕ
  pub local_name : Text
  pub server_handle : Option Text
  pub server_path : Option Text
  pub processing : Bool
  pub uploaded : ℕ

-- The signals, the number of the last attachment, and the three items of localStorage. What a JSON
-- text says is its object.
pub record Draft : Type 0 where
  pub title : Text
  pub body : Text
  pub files : List FileHandler
  pub fid : ℕ
  pub saved_title : Option Text
  pub saved_body : Option Text
  pub saved_files : Option (List FileHandler)

unfoldable pub find_file : ℕ → List FileHandler → Option FileHandler
find_file id [] = none
find_file id (file ∷ files) = if file.id == id then some file else find_file id files

-- `items.filter(item => item.id !== id)`
unfoldable pub without : ℕ → List FileHandler → List FileHandler
without id [] = []
without id (file ∷ files) = if file.id == id then without id files else file ∷ without id files

-- `triggerDraftSaveAttachments(files)`
abbrev pub save_attachments : Draft → Draft
save_attachments d = record d { saved_files = some d.files }

abbrev pub drop_item : ℕ → Draft → Draft
drop_item id d = save_attachments (record d { files = without id d.files })

module _ (E : Engine) where
  abbrev pub handle_of : Option FileHandler → Option Text
  handle_of none = none
  handle_of (some file) = file.server_handle

  abbrev is_full : Text → Bool
  is_full [] = false
  is_full (c ∷ t) = true

  -- `if(file && file.serverHandle)`, which an empty handle fails, too
  abbrev pub forget_file : Option Text → Job Draft (Unit {0})
  forget_file none = done tt
  forget_file (some handle) =
      if is_full handle
      then (attempt (str512 E handle native) >>= λ to.
          launch (rpc "mulex::FdbDeleteFile" (to ∷ []) native))
      else done tt

  unfoldable pub delete_file : ℕ → Job Draft (Unit {0})
  delete_file id = do d ← get; forget_file (handle_of (find_file id d.files)); modify (drop_item id)

  unfoldable pub delete_files : List FileHandler → Job Draft (Unit {0})
  delete_files [] = done tt
  delete_files (file ∷ files) = do delete_file file.id; delete_files files

  unfoldable pub delete_draft : Job Draft (Unit {0})
  delete_draft = do
    modify (λ d. record d { saved_title = none; saved_body = none })
    d ← get
    delete_files d.files
    modify (λ d. record d { saved_files = none })

-- The list of attachments after a drop of files with these names; the uploads that it starts go on by
-- themselves.
unfoldable pub on_drop : List Text → Draft → Draft
on_drop [] d = d
on_drop (name ∷ names) d = on_drop names (record d {
  fid = suc d.fid;
  files =
      d.files
      ++ (record {
        id = suc d.fid;
        local_name = name;
        server_handle = none;
        server_path = none;
        processing = false;
        uploaded = 0;
      }
          ∷ []);
})

-- `if(draftt) { setTitle(draftt); }`: an empty text is not taken.
abbrev pub or_old : Option Text → Text → Text
or_old none old = old
or_old (some []) old = old
or_old (some (c ∷ t)) old = c ∷ t

abbrev pub load_files : Option (List FileHandler) → Draft → Draft
load_files none d = d
load_files (some lfiles) d = record d { files = lfiles; fid = length lfiles }

unfoldable pub load_draft : Draft → Draft
load_draft d =
    load_files d.saved_files
      (record d { title = or_old d.saved_title d.title; body = or_old d.saved_body d.body })
