-- ===== src/Runs/Download.antt =====
-- RunViewer.tsx: downloadFile.
use mulex_fk.Prelude.{
  ℕ, zero, suc, ◌+◌, Bool, true, false, Option, none, some, List, [], ◌∷◌, ◌++◌, length, ◌==◌,
}
use mulex_fk.Prelude.Int.{pos}
use mulex_fk.Prelude.Results.{Result, ok, throw, type_error}
use mulex_fk.Convert.Names.{native, generic, bool, uint8, bytearray}
use mulex_fk.Convert.Engine.{Engine, Text, int}
use mulex_fk.Convert.Encode.{MxGenericType, str512}
use mulex_fk.Convert.Shorthands
use mulex_fk.Convert.Decode.{Output, boolean, booleans, astype}
use mulex_fk.Convert.Unpack
use mulex_fk.Convert.Unpack.{Unpacked, unpack, rows}
use mulex_fk.Calls.Jobs.{Job, done, await, modify, attempt, ◌>>=◌, ◌>>◌}
use mulex_fk.Utils.Arrays.{concat_bytes}

-- The `filename` signal, and the files that download_data has handed to the browser.
pub record Downloads : Type 0 where
  pub filename : Text
  pub saved : List (Text × List ℕ)

-- 64 * 1024
abbrev pub download_size : ℕ
download_size = 65536

module _ (E : Engine) where
  open E use {Float}

  -- `if(res.astype('bool'))`, on a boolean, an array of them, which is truthy, or null.
  abbrev pub truthy : Output Float → Bool
  truthy (boolean b) = b
  truthy (booleans bs) = true
  truthy _ = false

  -- `const [last, buffer] = chunk.unpack(['uint8', 'bytearray'])[0]`; without a first row it throws.
  abbrev pub chunk_of_row : Unpacked Float → Result (Bool × List ℕ)
  chunk_of_row (rows ((Unpack.number (int (pos last)) ∷ Unpack.bytes buffer ∷ []) ∷ rest)) =
      ok (last == 1, buffer)
  chunk_of_row _ = throw type_error

  unfoldable pub first_chunk : MxGenericType → Result (Bool × List ℕ)
  unfolding unpack
  first_chunk chunk =
      chunk_of_row (unpack E (length chunk.bytes.buffer + 1) chunk (uint8 ∷ bytearray ∷ []))

  abbrev pub finish_download : Text → Text → List (List ℕ) → Job Downloads (Option Bool)
  finish_download handle name chunks = do
    to ← attempt (str512 E handle native)
    ended ← await "mulex::FdbChunkedDownloadEnd" (to ∷ []) native
    file ← attempt (concat_bytes chunks)
    modify (λ s. record s { saved = s.saved ++ ((name, file) ∷ []) })
    modify (λ s. record s { filename = [] })
    done (some true)

  abbrev pub after_chunk :
      Text
      → Text
      → List (List ℕ)
      → (List (List ℕ) → Job Downloads (Option Bool))
      → Bool × List ℕ
      → Job Downloads (Option Bool)
  after_chunk handle name chunks next (true, buffer) =
      finish_download handle name (chunks ++ (buffer ∷ []))
  after_chunk handle name chunks next (false, buffer) = next (chunks ++ (buffer ∷ []))

  -- `while(true)`; the fuel bounds its rounds, and `none` is no result: the loop goes on.
  unfoldable pub receive_chunks : ℕ → Text → Text → List (List ℕ) → Job Downloads (Option Bool)
  receive_chunks zero handle name chunks = done none
  receive_chunks (suc fuel) handle name chunks = do
    to ← attempt (str512 E handle native)
    chunk ← await "mulex::FdbChunkedDownloadReceive" (to ∷ []) generic
    last_buffer ← attempt (first_chunk chunk)
    after_chunk handle name chunks (λ cs. receive_chunks fuel handle name cs) last_buffer

  abbrev pub start_download : ℕ → Text → Text → Bool → Job Downloads (Option Bool)
  start_download fuel handle name false = done (some false)
  start_download fuel handle name true = do
    modify (λ s. record s { filename = name })
    receive_chunks fuel handle name []

  unfoldable pub download_file : ℕ → Text → Text → Job Downloads (Option Bool)
  download_file fuel handle name = do
    to ← attempt (str512 E handle native)
    size ← attempt (Shorthands.int64 E (pos download_size) native)
    res ← await "mulex::FdbChunkedDownloadStart" (to ∷ size ∷ []) native
    started ← attempt (astype E res bool)
    start_download fuel handle name (truthy started)
