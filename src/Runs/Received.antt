-- ===== src/Runs/Received.antt =====
-- RunViewer.tsx: a file that the server sends in chunks reaches the browser whole.
use mulex_fk.Prelude.{
  ℕ, zero, suc, ◌≤◌, ◌≡◌, refl, Bool, true, false, Option, some, List, [], ◌∷◌, ◌++◌, length,
  append_assoc, arith,
}
use mulex_fk.Prelude.Int.{pos}
use mathlib.Core.List.{flatten}
use mulex_fk.Prelude.Results.{ok}
use mulex_fk.Convert.Names.{native, generic, bool}
use mulex_fk.Convert.Engine.{Engine, Text}
use mulex_fk.Convert.Encode.{MxGenericType, str512}
use mulex_fk.Convert.Shorthands
use mulex_fk.Convert.Decode.{boolean, astype}
use mulex_fk.Calls.Jobs.{Request, rpc}
use mulex_fk.Calls.Servers.{Server, run, Outcome}
use mulex_fk.Utils.Arrays.{concat_bytes-flatten}
use mulex_fk.Runs.Download.{Downloads, first_chunk, receive_chunks, download_file, download_size}

module _ (E : Engine) (server : Server) (handle name : Text) (to : MxGenericType) where
  open server use {State, reply}

  abbrev pub receive_request : Request
  receive_request = rpc "mulex::FdbChunkedDownloadReceive" (to ∷ []) generic

  abbrev pub end_request : Request
  end_request = rpc "mulex::FdbChunkedDownloadEnd" (to ∷ []) native

  -- The replies to the next requests are these chunks, of which only the last says that it is the last;
  -- then the end is answered.
  abbrev pub Serves : State → List (List ℕ) → Type 0
  Serves w [] = ⊥
  Serves w (c ∷ []) =
      (r : MxGenericType) × ((reply w receive_request).0 ≡ ok r)
      × (first_chunk E r ≡ ok (true, c))
      × (ended : MxGenericType) × ((reply (reply w receive_request).1 end_request).0 ≡ ok ended)
  Serves w (c ∷ d ∷ cs) =
      (r : MxGenericType) × ((reply w receive_request).0 ≡ ok r)
      × (first_chunk E r ≡ ok (false, c))
      × Serves (reply w receive_request).1 (d ∷ cs)

  -- The file is handed over, and the name is cleared.
  abbrev pub saved_after : List ℕ → Downloads → Downloads
  saved_after file s = record { filename = []; saved = s.saved ++ ((name, file) ∷ []) }

  abbrev IsSaved : List ℕ → Downloads → Outcome State Downloads (Option Bool) → Type 0
  IsSaved file s o = (o.result ≡ ok (some true)) × (o.state ≡ saved_after file s)

  module _ (made : str512 E handle native ≡ ok to) where
    receive_chunks-IsSaved :
        (cs before : List (List ℕ)) (fuel : ℕ) (s : Downloads) (w : State)
        → length cs ≤ fuel
        → Serves w cs
        → IsSaved
            (flatten (before ++ cs))
            s
            (run server (receive_chunks E fuel handle name before) s w)
    unfolding run receive_chunks
    receive_chunks-IsSaved [] before fuel s w h serves = absurd serves
    receive_chunks-IsSaved (c ∷ cs) before zero s w h serves = absurd (omega arith)
    receive_chunks-IsSaved (c ∷ []) before (suc fuel) s w h (r, given, seen, ended, answered) =
        rw (made, run, given, seen, made, answered, concat_bytes-flatten (before ++ (c ∷ [])))
          (refl, refl)
    receive_chunks-IsSaved (c ∷ d ∷ cs) before (suc fuel) s w h (r, given, seen, rest) =
        let ih =
          receive_chunks-IsSaved (d ∷ cs) (before ++ (c ∷ [])) fuel s (reply w receive_request).1
            (omega arith) rest in
        let joined : (before ++ (c ∷ [])) ++ (d ∷ cs) ≡ before ++ (c ∷ d ∷ cs) =
          append_assoc before (c ∷ []) (d ∷ cs) in
        rw (made, run, given, seen, ← joined) ih

-- A file that the server has and sends in any number of chunks, the last of which says so, is
-- handed to the browser once, under its name and with the chunks' bytes in order, if there is fuel
-- for the chunks and the end is answered; the download then answers true and shows no name.
pub download_file-saved :
    (E : Engine) (server : Server) (handle name : Text) (to size started : MxGenericType)
    (cs : List (List ℕ)) (fuel : ℕ) (s : Downloads) (w : server.State)
    → str512 E handle native ≡ ok to
    → Shorthands.int64 E (pos download_size) native ≡ ok size
    → (server.reply w (rpc "mulex::FdbChunkedDownloadStart" (to ∷ size ∷ []) native)).0 ≡ ok started
    → astype E started bool ≡ ok (boolean true)
    → Serves E server handle name to
        (server.reply w (rpc "mulex::FdbChunkedDownloadStart" (to ∷ size ∷ []) native)).1
        cs
    → length cs ≤ fuel
    → ((run server (download_file E fuel handle name) s w).result ≡ ok (some true))
      × ((run server (download_file E fuel handle name) s w).state
          ≡ record { filename = []; saved = s.saved ++ ((name, flatten cs) ∷ []) })
unfolding run download_file
download_file-saved E server handle name to size started cs fuel s w made sized given seen serves
      h =
    rw (made, sized, run, given, seen)
      (receive_chunks-IsSaved E server handle name to made cs [] fuel (record s { filename = name })
        _ h serves)
