-- ===== src/Upload/Sending.antt =====
-- FileDropUpload.tsx: uploadFiles.
use mulex_fk.Prelude.{
  ◌-◌, ℕ, ◌+◌, ◌/◌, Bool, true, false, Option, none, some, List, [], ◌∷◌, length,
}
use mulex_fk.Prelude.Chunks.{chunk_loop}
use mulex_fk.Prelude.Literals.{units}
use mulex_fk.Prelude.Results.{range_error}
use mulex_fk.Convert.Names.{native, generic, bool, string}
use mulex_fk.Convert.Engine.{Engine, Text}
use mulex_fk.Convert.Encode.{make_data, str32, str128, str512}
use mulex_fk.Convert.Decode.{Output, text, astype}
use mulex_fk.Calls.Jobs.{Job, done, throws, await, modify, attempt, ◌>>=◌, ◌>>◌}

-- A File of the browser.
pub record File : Type 0 where
  pub name : Text
  pub mime : Text
  pub bytes : List ℕ

-- The signals that uploadFiles sets, and what it has transferred (which a timer sets back for the
-- meter of the speed).
pub record Transfer : Type 0 where
  pub uploading : Bool
  pub progress : ℕ
  pub max_progress : ℕ
  pub curr_filename : Text
  pub bytes_transfered : ℕ

-- 64 * 1024
abbrev pub chunk_size : ℕ
chunk_size = 65536

-- What str512 is given for a handle: `handle + '\0'` of a null is 'null' and the NUL.
abbrev pub handle_text : {F : Type 0} → Output F → Text
handle_text (text t) = t
handle_text _ = units "null"

module _ (E : Engine) where
  -- `FdbChunkedUploadSend` for a chunk; whether the server took it is logged at most.
  abbrev pub send_chunk : Text → List ℕ → Job Transfer (Unit {0})
  send_chunk handle chunk = do
    to ← attempt (str512 E handle native)
    payload ← attempt (make_data chunk generic)
    chunk_ok ← await "mulex::FdbChunkedUploadSend" (to ∷ payload ∷ []) native
    flag ← attempt (astype E chunk_ok bool)
    modify (λ s. record s {
      bytes_transfered = s.bytes_transfered + length chunk;
      progress = s.progress + 1;
    })

  unfoldable pub send_chunks : Text → List (List ℕ) → Job Transfer (Unit {0})
  send_chunks handle [] = done tt
  send_chunks handle (chunk ∷ chunks) = do send_chunk handle chunk; send_chunks handle chunks

  -- `for(let i = 0; i < dataSize; i += chunkSize)`, with fuel for a round for each byte and one more:
  -- that it runs out is no case of the source.
  abbrev pub send_all : Text → Option (List (List ℕ)) → Job Transfer (Unit {0})
  send_all handle none = throws range_error
  send_all handle (some chunks) = send_chunks handle chunks

  unfoldable pub upload_file : File → Job Transfer Text
  upload_file file = do
    mime ← attempt (str128 E file.mime native)
    extension ← attempt (str32 E [] native)
    res ← await "mulex::FdbChunkedUploadStart" (mime ∷ extension ∷ []) native
    handle ← attempt (astype E res string)
    modify (λ s. record s {
      progress = 0;
      max_progress = (length file.bytes + (chunk_size - 1)) / chunk_size;
      curr_filename = file.name;
    })
    send_all (handle_text handle) (chunk_loop (length file.bytes + 1) file.bytes chunk_size 0)
    to ← attempt (str512 E (handle_text handle) native)
    upload_ok ← await "mulex::FdbChunkedUploadEnd" (to ∷ []) native
    flag ← attempt (astype E upload_ok bool)
    done (handle_text handle)

  -- The files one after the other; the handles are for onUploadCompleted.
  unfoldable pub upload_each : List File → Job Transfer (List Text)
  upload_each [] = done []
  upload_each (file ∷ files) = do
    handle ← upload_file file
    handles ← upload_each files
    done (handle ∷ handles)

  unfoldable pub upload_files : List File → Job Transfer (List Text)
  upload_files files = do
    modify (λ s. record s { uploading = true; bytes_transfered = 0 })
    handles ← upload_each files
    modify (λ s. record s { uploading = false })
    done handles
