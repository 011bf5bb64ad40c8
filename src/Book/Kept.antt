-- ===== src/Book/Kept.antt =====
-- LogBook.tsx: an upload leaves the ids of the attachments as they are.
use mulex_fk.Prelude.{
  ℕ, ◌+◌, ◌≤◌, ◌≡◌, ap, Bool, true, false, Option, none, some, List, [], ◌∷◌, length, All,
}
use mulex_fk.Prelude.Keys.{number_key, ◌==◌}
use mulex_fk.Prelude.Results.{Result, ok, throw, range_error}
use mulex_fk.Convert.Engine.{Engine, Text}
use mulex_fk.Convert.Decode.{Output}
use mulex_fk.Calls.Jobs.{Job, attempt, modify, ◌>>=◌}
use mulex_fk.Calls.Servers.{Server, run}
use mulex_fk.Calls.Invariants.{Keeps, done-Keeps, throws-Keeps, bind-Keeps, look-Keeps, keeps}
use mulex_fk.Upload.Sending.{File}
use mulex_fk.Book.Drafts.{FileHandler, Draft, find_file, save_attachments, on_drop, delete_file}
use mulex_fk.Book.Attachments.{
  change_file, change, send_chunk, send_chunks, send_all, upload_known, upload_found, upload_file,
}
use mulex_fk.Book.Ids.{ids, IsNumbered, on_drop-IsNumbered, delete_file-IsNumbered}

abbrev HasIds : List FileHandler → Result (List FileHandler) → Type 0
HasIds files (ok changed) = ids changed ≡ ids files
HasIds files (throw e) = Unit {0}

HasIds-cons :
    (file : FileHandler) (files : List FileHandler) (r : Result (List FileHandler))
    → HasIds files r
    → HasIds (file ∷ files) (elim r [ ok rest ↦ ok (file ∷ rest) | throw e ↦ throw e ])
HasIds-cons file files (ok rest) h = ap (λ t. file.id ∷ t) h
HasIds-cons file files (throw e) h = tt

change_file-HasIds :
    (id : ℕ) (f : FileHandler → FileHandler)
    → ((file : FileHandler) → (f file).id ≡ file.id)
    → (files : List FileHandler) → HasIds files (change_file id f files)
unfolding change_file
change_file-HasIds id f same [] = tt
change_file-HasIds id f same (file ∷ files) =
    go (file.id == id) (HasIds-cons file files _ (change_file-HasIds id f same files))
  where
    go :
        (here : Bool)
        → HasIds
            (file ∷ files)
            (elim (change_file id f files) [ ok rest ↦ ok (file ∷ rest) | throw e ↦ throw e ])
        → HasIds (file ∷ files) (elim here [
          | true ↦ ok (f file ∷ files)
          | false ↦ elim (change_file id f files) [ ok rest ↦ ok (file ∷ rest) | throw e ↦ throw e ]
        ])
    go true ih = ap (λ n. n ∷ ids files) (same file)
    go false ih = ih

issued_of_ids :
    (n : ℕ) (files changed : List FileHandler)
    → ids changed ≡ ids files
    → All (λ file. file.id ≤ n) files
    → All (λ file. file.id ≤ n) changed
issued_of_ids n files [] e h = tt
issued_of_ids n [] (c ∷ changed) e h = cc
issued_of_ids n (file ∷ files) (c ∷ changed) e (h, hs) =
    let first : c.id ≡ file.id = cc in
    let rest : ids changed ≡ ids files = cc in (rw first h, issued_of_ids n files changed rest hs)

IsNumbered-ids :
    (d : Draft) (changed : List FileHandler)
    → ids changed ≡ ids d.files
    → IsNumbered d
    → IsNumbered (record d { files = changed })
IsNumbered-ids d changed e v = record {
  distinct = rw e v.distinct;
  issued = issued_of_ids d.fid d.files changed e v.issued;
}

module _ (E : Engine) (server : Server) where
  change-Keeps :
      (id : ℕ) (f : FileHandler → FileHandler)
      → ((file : FileHandler) → (f file).id ≡ file.id)
      → Keeps server IsNumbered (change id f)
  unfolding run
  change-Keeps id f same =
      look-Keeps server IsNumbered
        (λ d.
          attempt (change_file id f d.files) >>= λ files. modify (λ s. record s { files = files }))
        (λ seen v w.
          go seen v w (change_file id f seen.files) (change_file-HasIds id f same seen.files))
    where
      go :
          (seen : Draft)
          → IsNumbered seen
          → (w : server.State) → (r : Result (List FileHandler)) → HasIds seen.files r
          → IsNumbered
              (run server
                (attempt r >>= λ files. modify (λ s. record s { files = files }))
                seen
                w).state
      go seen v w (ok changed) h = IsNumbered-ids seen changed h v
      go seen v w (throw e) h = v

  send_chunk-Keeps :
      (id : ℕ) (handle : Text) (sent : ℕ) (chunk : List ℕ)
      → Keeps server IsNumbered (send_chunk E id handle sent chunk)
  send_chunk-Keeps id handle sent chunk = search (keeps, change-Keeps)

  send_chunks-Keeps :
      (id : ℕ) (handle : Text) (sent : ℕ) (chunks : List (List ℕ))
      → Keeps server IsNumbered (send_chunks E id handle sent chunks)
  unfolding send_chunks
  send_chunks-Keeps id handle sent [] = done-Keeps server IsNumbered tt
  send_chunks-Keeps id handle sent (chunk ∷ chunks) =
      bind-Keeps server IsNumbered (send_chunk E id handle sent chunk)
        (λ u. send_chunks E id handle (sent + length chunk) chunks)
        (send_chunk-Keeps id handle sent chunk)
        (λ u. send_chunks-Keeps id handle (sent + length chunk) chunks)

  send_all-Keeps :
      (id : ℕ) (handle : Text) (chunks : Option (List (List ℕ)))
      → Keeps server IsNumbered (send_all E id handle chunks)
  send_all-Keeps id handle none = throws-Keeps server IsNumbered (Unit {0}) range_error
  send_all-Keeps id handle (some chunks) = send_chunks-Keeps id handle 0 chunks

  saved-IsNumbered : (d : Draft) → IsNumbered d → IsNumbered (save_attachments d)
  saved-IsNumbered d v = record { distinct = v.distinct; issued = v.issued }

  upload_known-Keeps :
      (id : ℕ) (file : File) (handle : Output E.Float)
      → Keeps server IsNumbered (upload_known E id file handle)
  unfolding upload_known
  upload_known-Keeps id file handle =
      search (keeps, change-Keeps, send_all-Keeps, saved-IsNumbered) depth 40 fits 3000

  upload_found-Keeps :
      (id : ℕ) (file : File) (found : Option FileHandler)
      → Keeps server IsNumbered (upload_found E id file found)
  upload_found-Keeps id file none = done-Keeps server IsNumbered tt
  upload_found-Keeps id file (some known) = search (keeps, upload_known-Keeps)

  upload_file-Keeps : (id : ℕ) (file : File) → Keeps server IsNumbered (upload_file E id file)
  unfolding upload_file Keeps
  upload_file-Keeps id file =
      look-Keeps server IsNumbered (λ d. upload_found E id file (find_file id d.files))
        (λ seen v w. upload_found-Keeps id file (find_file id seen.files) seen w v)

-- What is done to the attachments of a draft.
pub data Edit : Type 0 where
  drops : List Text → Edit
  deletes : ℕ → Edit
  uploads : ℕ → File → Edit

-- The handlers that answer them.
abbrev pub edit : (E : Engine) → Edit → Job Draft (Unit {0})
edit E (drops names) = modify (on_drop names)
edit E (deletes id) = delete_file E id
edit E (uploads id file) = upload_file E id file

-- Dropping files, deleting attachments and uploading them, whatever the server does, however far an
-- upload comes, and whether or not its attachment is there, keeps the ids of the attachments distinct and
-- none beyond the last that was given, if they are so before.
pub edit-IsNumbered :
    (E : Engine) (server : Server) (e : Edit) (d : Draft) (w : server.State)
    → IsNumbered d
    → IsNumbered (run server (edit E e) d w).state
unfolding run Keeps
edit-IsNumbered E server (drops names) d w v = on_drop-IsNumbered names d v
edit-IsNumbered E server (deletes id) d w v = delete_file-IsNumbered E server id d w v
edit-IsNumbered E server (uploads id file) d w v = upload_file-Keeps E server id file d w v
