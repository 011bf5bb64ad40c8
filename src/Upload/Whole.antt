-- ===== src/Upload/Whole.antt =====
-- FileDropUpload.tsx: what the server is sent for a file, if it answers the calls.
use mulex_fk.Prelude.{
  drop, ℕ, ◌+◌, ◌-◌, ◌/◌, ◌≡◌, refl, ap, ◌∙◌, List, [], ◌∷◌, ◌++◌, map, arith, length,
  length-append, ◌==◌, Bool-cases, inl, inr,
}
use mathlib.Core.List.{flatten}
use mulex_fk.Prelude.Chunks.{IsCut}
use mulex_fk.Prelude.Chunks.{chunk_loop, chunk_loop_total}
use mulex_fk.Prelude.Results.{ok}
use mulex_fk.Convert.Names.{native, generic, bool, string}
use mulex_fk.Convert.Engine.{Engine, Text}
use mulex_fk.Convert.Bytes.{whole, le_bytes}
use mulex_fk.Convert.Encode.{MxGenericType, make_data, from_data, str512}
use mulex_fk.Convert.Decode.{one_or_all_bools, size_offset, Output, astype, read_as, null, text}
use mulex_fk.Convert.Sized.{wrap_generic}
use mulex_fk.Convert.Encode.{str32, str128}
use mulex_fk.Calls.Jobs.{Request, rpc, done, await, attempt, ◌>>=◌, Job}
use mulex_fk.Calls.Servers.{after_request, Server, run, run-bind, and_then, with_sent}
use mulex_fk.Upload.Sending.{
  File, Transfer, chunk_size, send_chunk, send_chunks, send_all, upload_file,
}

-- The number of pieces of a file: its size over the size of a chunk, rounded up.
length-cut :
    {A : Type 0} (cs : List (List A))
    → IsCut chunk_size cs
    → length cs ≡ (length (flatten cs) + (chunk_size - 1)) / chunk_size
unfolding flatten
length-cut [] cut = refl
length-cut (c ∷ []) cut = omega (arith, length-append c [], cut.0, cut.1)
length-cut (c ∷ d ∷ cs) cut =
    omega (arith, length-append c (flatten (d ∷ cs)), cut.0, length-cut (d ∷ cs) cut.1)

astype-bool : (E : Engine) (m : MxGenericType) → (out : Output E.Float) × (astype E m bool ≡ ok out)
unfolding astype read_as
astype-bool E m = elim (Bool-cases (m.bytes.byte_length == 0)) [
  | inl none_left ↦ (null, rw none_left refl)
  | inr bytes_left ↦ (
    one_or_all_bools E (drop (size_offset m + m.bytes.byte_offset) m.bytes.buffer),
    rw bytes_left refl,
  )
]

-- A chunk as it goes over the wire: its size and its bytes.
abbrev pub payload : List ℕ → MxGenericType
payload chunk = from_data (whole (le_bytes 8 (length chunk) ++ chunk)) generic

make_data_lem : (chunk : List ℕ) → make_data chunk generic ≡ ok (payload chunk)
unfolding make_data
make_data_lem chunk = wrap_generic chunk

abbrev pub send_request : MxGenericType → List ℕ → Request
send_request to chunk = rpc "mulex::FdbChunkedUploadSend" (to ∷ payload chunk ∷ []) native

-- A server that answers every call.
abbrev pub Answers : Server → Type 0
Answers server =
    (w : server.State) (q : Request) → (r : MxGenericType) × ((server.reply w q).0 ≡ ok r)

module _ (E : Engine) (server : Server) (answers : Answers server) where
  open server use {State, reply}

  module _ (h : Text) (to : MxGenericType) (made : str512 E h native ≡ ok to) where
    abbrev pub counted : List ℕ → Transfer → Transfer
    counted chunk s = record s {
      bytes_transfered = s.bytes_transfered + length chunk;
      progress = s.progress + 1;
    }

    run-send_chunk :
        (chunk : List ℕ) (s : Transfer) (w : State)
        → run server (send_chunk E h chunk) s w ≡ record {
          result = ok tt;
          state = counted chunk s;
          world = (reply w (send_request to chunk)).1;
          sent = send_request to chunk ∷ [];
        }
    unfolding run
    run-send_chunk chunk s w =
        let (r, given) = answers w (send_request to chunk) in
        let (flag, seen) = astype-bool E r in rw (made, make_data_lem chunk, run, given, seen) refl

    abbrev pub counted_all : List (List ℕ) → Transfer → Transfer
    counted_all [] s = s
    counted_all (chunk ∷ chunks) s = counted_all chunks (counted chunk s)

    run-send_chunks :
        (chunks : List (List ℕ)) (s : Transfer) (w : State)
        → (w' : State) × (run server (send_chunks E h chunks) s w ≡ record {
          result = ok tt;
          state = counted_all chunks s;
          world = w';
          sent = map (send_request to) chunks;
        })
    unfolding send_chunks
    run-send_chunks [] s w = (w, unfold run in refl)
    run-send_chunks (chunk ∷ chunks) s w =
        let (w', ih) =
          run-send_chunks chunks (counted chunk s) (reply w (send_request to chunk)).1 in
        (
          w',
          run-bind server (send_chunk E h chunk) (λ _. send_chunks E h chunks) s w
              ∙ ap (λ o. and_then server o (λ _. send_chunks E h chunks)) (run-send_chunk chunk s w)
              ∙ ap (with_sent (send_request to chunk ∷ [])) ih,
        )

    counted_all-progress :
        (chunks : List (List ℕ)) (s : Transfer)
        → ((counted_all chunks s).progress ≡ s.progress + length chunks)
          × ((counted_all chunks s).max_progress ≡ s.max_progress)
    counted_all-progress [] s = (omega arith, refl)
    counted_all-progress (chunk ∷ chunks) s =
        let (a, b) = counted_all-progress chunks (counted chunk s) in (omega arith, b)

    abbrev pub end_request : Request
    end_request = rpc "mulex::FdbChunkedUploadEnd" (to ∷ []) native

    -- What upload_file does behind the loop.
    abbrev finish : Job Transfer Text
    finish = do
      to' ← attempt (str512 E h native)
      upload_ok ← await "mulex::FdbChunkedUploadEnd" (to' ∷ []) native
      flag ← attempt (astype E upload_ok bool)
      done h

    run-finish :
        (s : Transfer) (w : State)
        → run server finish s w ≡ record {
          result = ok h;
          state = s;
          world = (reply w end_request).1;
          sent = end_request ∷ [];
        }
    unfolding run
    run-finish s w =
        let (r, given) = answers w end_request in
        let (flag, seen) = astype-bool E r in rw (made, run, given, seen) refl

    run-sent :
        (chunks : List (List ℕ)) (s : Transfer) (w : State)
        → (w' : State) × (run server (send_chunks E h chunks >>= λ _. finish) s w ≡ record {
          result = ok h;
          state = counted_all chunks s;
          world = w';
          sent = map (send_request to) chunks ++ (end_request ∷ []);
        })
    run-sent chunks s w =
        let (w', e) = run-send_chunks chunks s w in
        (
          (reply w' end_request).1,
          run-bind server (send_chunks E h chunks) (λ _. finish) s w
              ∙ ap (λ o. and_then server o (λ _. finish)) e
              ∙ ap (with_sent (map (send_request to) chunks))
                  (run-finish (counted_all chunks s) w'),
        )

    module _ (file : File) (mime ext start_reply : MxGenericType)
        (made_mime : str128 E file.mime native ≡ ok mime) (made_ext : str32 E [] native ≡ ok ext)
        (named : astype E start_reply string ≡ ok (text h)) where
      abbrev pub start_request : Request
      start_request = rpc "mulex::FdbChunkedUploadStart" (mime ∷ ext ∷ []) native

      -- The signals when the loop starts.
      abbrev begun : Transfer → Transfer
      begun s = record s {
        progress = 0;
        max_progress = (length file.bytes + (chunk_size - 1)) / chunk_size;
        curr_filename = file.name;
      }

      run-upload_file :
          (s : Transfer) (w : State)
          → (reply w start_request).0 ≡ ok start_reply
          → run server (upload_file E file) s w
            ≡ after_request start_request (
                run server
                  (send_all E h (chunk_loop (length file.bytes + 1) file.bytes chunk_size 0)
                    >>= λ _. finish)
                  (begun s)
                  (reply w start_request).1)
      unfolding run upload_file
      run-upload_file s w started = rw (made_mime, made_ext, run, started, named) refl

  -- Against a server that answers every call, and the start with a handle, a file is sent whole,
  -- if its type and the handle fit their texts: after the start come its chunks of 64 KiB (the
  -- last may be shorter, and holds something), which make up its bytes in order, and then the end;
  -- the result is the handle, and the progress ends at its maximum.
  pub upload_file-whole :
      (h : Text) (to : MxGenericType) (file : File) (mime ext start_reply : MxGenericType)
      (s : Transfer) (w : State)
      → str512 E h native ≡ ok to
      → str128 E file.mime native ≡ ok mime
      → str32 E [] native ≡ ok ext
      → astype E start_reply string ≡ ok (text h)
      → (reply w (rpc "mulex::FdbChunkedUploadStart" (mime ∷ ext ∷ []) native)).0 ≡ ok start_reply
      → (chunks : List (List ℕ)) × ((run server (upload_file E file) s w).result ≡ ok h)
        × ((run server (upload_file E file) s w).sent
            ≡ rpc "mulex::FdbChunkedUploadStart" (mime ∷ ext ∷ []) native
              ∷ (map (send_request to) chunks
                  ++ (rpc "mulex::FdbChunkedUploadEnd" (to ∷ []) native ∷ [])))
        × (flatten chunks ≡ file.bytes)
        × IsCut chunk_size chunks
        × ((run server (upload_file E file) s w).state.progress
            ≡ (run server (upload_file E file) s w).state.max_progress)
  upload_file-whole h to file mime ext start_reply s w made made_mime made_ext named started =
      let (chunks, cut, pieces, joined) =
        chunk_loop_total (length file.bytes + 1) file.bytes chunk_size 0 (omega arith)
          (omega arith) in
      let s' = begun h to made file mime ext start_reply made_mime made_ext named s in
      let first : Request = rpc "mulex::FdbChunkedUploadStart" (mime ∷ ext ∷ []) native in
      let w'' = (reply w first).1 in
      let (w', rest) = run-sent h to made chunks s' w'' in
      let sent_all =
        run-upload_file h to made file mime ext start_reply made_mime made_ext named s w started
        ∙ ap
            (λ cs.
              after_request first (run server (send_all E h cs >>= λ _. finish h to made) s' w''))
            cut
        ∙ ap (after_request first) rest in
      let (count, kept) = counted_all-progress h to made chunks s' in
      let size = length-cut chunks pieces in
      (
        chunks,
        ap (λ o. o.result) sent_all,
        ap (λ o. o.sent) sent_all,
        joined,
        pieces,
        rw sent_all (omega (arith, count, kept, size, ap length joined)),
      )
