-- ===== src/Book/Attachments.antt =====
-- LogBook.tsx: uploadFile, for an attachment of the draft.
use mulex_fk.Prelude.{ℕ, ◌+◌, true, false, Option, none, some, List, [], ◌∷◌, length}
use mulex_fk.Prelude.Chunks.{chunk_loop}
use mulex_fk.Prelude.Keys.{number_key, ◌==◌}
use mulex_fk.Prelude.Results.{Result, ok, throw, range_error, type_error}
use mulex_fk.Convert.Names.{native, generic, bool, string}
use mulex_fk.Convert.Engine.{Engine, Text}
use mulex_fk.Convert.Encode.{make_data, str32, str128, str512}
use mulex_fk.Convert.Decode.{Output, text, astype}
use mulex_fk.Calls.Jobs.{Job, done, throws, await, modify, get, attempt, ◌>>=◌, ◌>>◌}
use mulex_fk.Upload.Sending.{File, chunk_size, handle_text}
use mulex_fk.Book.Drafts.{FileHandler, Draft, find_file, save_attachments}
use mulex_fk.Book.Posts.{fetch_extension}

-- `filesActions("items", files.items.findIndex(i => i.id === id), ...)`. A store has no index -1, and
-- throws: the attachment has been deleted.
unfoldable pub change_file :
    ℕ → (FileHandler → FileHandler) → List FileHandler → Result (List FileHandler)
change_file id f [] = throw type_error
change_file id f (file ∷ files) = elim (file.id == id) [
  | true ↦ ok (f file ∷ files)
  | false ↦ elim (change_file id f files) [ ok rest ↦ ok (file ∷ rest) | throw e ↦ throw e ]
]

abbrev pub change : ℕ → (FileHandler → FileHandler) → Job Draft (Unit {0})
change id f = get >>= λ d.
    attempt (change_file id f d.files) >>= λ files. modify (λ s. record s { files = files })

-- What a store has for an output of astype that is a text, and for its null.
abbrev pub given_text : {F : Type 0} → Output F → Option Text
given_text (text t) = some t
given_text _ = none

module _ (E : Engine) where
  -- `FdbChunkedUploadSend` for a chunk; whether the server took it is logged at most.
  abbrev pub send_chunk : (id : ℕ) (handle : Text) (sent : ℕ) → List ℕ → Job Draft (Unit {0})
  send_chunk id handle sent chunk = do
    to ← attempt (str512 E handle native)
    payload ← attempt (make_data chunk generic)
    chunk_ok ← await "mulex::FdbChunkedUploadSend" (to ∷ payload ∷ []) native
    flag ← attempt (astype E chunk_ok bool)
    change id (λ file. record file { uploaded = sent + length chunk })

  unfoldable pub send_chunks :
      (id : ℕ) (handle : Text) (sent : ℕ) → List (List ℕ) → Job Draft (Unit {0})
  send_chunks id handle sent [] = done tt
  send_chunks id handle sent (chunk ∷ chunks) = do
    send_chunk id handle sent chunk
    send_chunks id handle (sent + length chunk) chunks

  -- `for(let i = 0; i < dataSize; i += chunkSize)`: that its fuel runs out is no case of the source.
  abbrev pub send_all : (id : ℕ) (handle : Text) → Option (List (List ℕ)) → Job Draft (Unit {0})
  send_all id handle none = throws range_error
  send_all id handle (some chunks) = send_chunks id handle 0 chunks

  -- What follows the start of the upload.
  unfoldable pub upload_known : (id : ℕ) → File → Output E.Float → Job Draft (Unit {0})
  upload_known id file handle = do
    change id (λ f. record f { processing = true })
    change id (λ f. record f { uploaded = 0 })
    send_all id (handle_text handle) (chunk_loop (length file.bytes + 1) file.bytes chunk_size 0)
    to ← attempt (str512 E (handle_text handle) native)
    upload_ok ← await "mulex::FdbChunkedUploadEnd" (to ∷ []) native
    flag ← attempt (astype E upload_ok bool)
    change id (λ f. record f { processing = false })
    change id (λ f. record f { server_handle = given_text handle })
    res ← await "mulex::FdbGetHandleRelativePath" (to ∷ []) native
    server_path ← attempt (astype E res string)
    change id (λ f. record f { server_path = given_text server_path })
    modify save_attachments

  abbrev pub upload_found : (id : ℕ) → File → Option FileHandler → Job Draft (Unit {0})
  upload_found id file none = done tt
  upload_found id file (some known) = do
    mime ← attempt (str128 E file.mime native)
    extension ← attempt (str32 E (fetch_extension known.local_name) native)
    res ← await "mulex::FdbChunkedUploadStart" (mime ∷ extension ∷ []) native
    handle ← attempt (astype E res string)
    upload_known id file handle

  unfoldable pub upload_file : (id : ℕ) → File → Job Draft (Unit {0})
  upload_file id file = do d ← get; upload_found id file (find_file id d.files)
