-- ===== src/Tests/Transfers.antt =====
-- FileDropUpload.tsx, RunViewer.tsx and EventsViewer.tsx against small servers.
use mulex_fk.Prelude.{
  ℕ, suc, zero, ◌≡◌, refl, arith, true, false, none, some, List, [], ◌∷◌, ◌++◌, map, replicate,
  length, ◌+◌,
}
use mathlib.Core.List.{flatten}
use mulex_fk.Prelude.Int.{pos, to_unsigned}
use mulex_fk.Prelude.Keys.{int_key}
use mulex_fk.Prelude.Results.{Result, ok}
use mulex_fk.Prelude.Chunks.{IsCut}
use mulex_fk.Convert.Names
use mulex_fk.Convert.Names.{native, generic}
use mulex_fk.Convert.Engine.{Text}
use mulex_fk.Convert.Bytes
use mulex_fk.Convert.Bytes.{whole, le_bytes}
use mulex_fk.Convert.Encode
use mulex_fk.Convert.Encode.{MxGenericType, from_data}
use mulex_fk.Convert.Decode
use mulex_fk.Convert.Decode.{astype, read_as, text, boolean}
use mulex_fk.Convert.Unpack
use mulex_fk.Convert.Shorthands
use mulex_fk.Stores.Sets
use mulex_fk.Stores.Maps
use mulex_fk.Calls.Jobs.{Request, rpc}
use mulex_fk.Calls.Servers.{Server, run}
use mulex_fk.Upload.Sending.{File, Transfer, chunk_size, upload_file}
use mulex_fk.Upload.Whole.{send_request, upload_file-whole}
use mulex_fk.Runs.Download.{Downloads, download_file, first_chunk}
use mulex_fk.Runs.Received.{download_file-saved}
use mulex_fk.Events.Statistics.{EventMeta}
use mulex_fk.Events.Capture.{Captures, switches, capture}
use mulex_fk.Events.Kept.{IsCapturing, capture-IsCapturing}
use mulex_fk.Book.Drafts.{FileHandler, Draft}
use mulex_fk.Book.Ids.{IsNumbered}
use mulex_fk.Book.Kept.{edit, deletes, edit-IsNumbered}
use mulex_fk.Tests.Engines.{ascii}

-- A server that answers every call with the text 'h'.
abbrev h_reply : MxGenericType
h_reply = from_data (whole (104 ∷ 0 ∷ [])) native

abbrev always_h : Server
always_h = record { State = Unit; reply = λ w q. (ok h_reply, w) }

abbrev handle : Text
handle = 104 ∷ []

abbrev wire_handle : MxGenericType
wire_handle = from_data (whole (104 ∷ replicate 511 0)) native

wire_handle_lem : Encode.str512 ascii handle native ≡ ok wire_handle
unfolding Encode.str512 Encode.from_value Encode.value_bytes Bytes.set_bytes
wire_handle_lem = refl

abbrev wire_mime : MxGenericType
wire_mime = from_data (whole (replicate 128 0)) native

wire_mime_lem : Encode.str128 ascii [] native ≡ ok wire_mime
unfolding Encode.str128 Encode.from_value Encode.value_bytes Bytes.set_bytes
wire_mime_lem = refl

abbrev wire_ext : MxGenericType
wire_ext = from_data (whole (replicate 32 0)) native

wire_ext_lem : Encode.str32 ascii [] native ≡ ok wire_ext
unfolding Encode.str32 Encode.from_value Encode.value_bytes Bytes.set_bytes
wire_ext_lem = refl

h_reply_lem : astype ascii h_reply Names.string ≡ ok (text handle)
unfolding astype read_as Decode.cut_nul
h_reply_lem = refl

abbrev three_bytes : File
three_bytes = record { name = []; mime = []; bytes = 1 ∷ 2 ∷ 3 ∷ [] }

abbrev idle : Transfer
idle = record {
  uploading = false;
  progress = 0;
  max_progress = 0;
  curr_filename = [];
  bytes_transfered = 0;
}

upload_file-whole_example :
    (chunks : List (List ℕ)) × ((run always_h (upload_file ascii three_bytes) idle tt).result
      ≡ ok handle)
    × ((run always_h (upload_file ascii three_bytes) idle tt).sent
        ≡ rpc "mulex::FdbChunkedUploadStart" (wire_mime ∷ wire_ext ∷ []) native
          ∷ (map (send_request wire_handle) chunks
              ++ (rpc "mulex::FdbChunkedUploadEnd" (wire_handle ∷ []) native ∷ [])))
    × (flatten chunks ≡ 1 ∷ 2 ∷ 3 ∷ [])
    × IsCut chunk_size chunks
    × ((run always_h (upload_file ascii three_bytes) idle tt).state.progress
        ≡ (run always_h (upload_file ascii three_bytes) idle tt).state.max_progress)
upload_file-whole_example =
    upload_file-whole ascii always_h (λ w q. (h_reply, refl)) handle wire_handle three_bytes
      wire_mime wire_ext h_reply idle tt wire_handle_lem wire_mime_lem wire_ext_lem h_reply_lem refl

-- A server with a file of two chunks; its state is the number of those that it has sent.
abbrev chunk_reply : ℕ → List ℕ → MxGenericType
chunk_reply last buffer =
    from_data
      (whole (le_bytes 8 (9 + length buffer) ++ (last ∷ (le_bytes 8 (length buffer) ++ buffer))))
      generic

abbrev send_two : ℕ → Request → Result MxGenericType × ℕ
send_two zero (rpc method args generic) = (ok (chunk_reply 0 (7 ∷ 8 ∷ [])), 1)
send_two (suc n) (rpc method args generic) = (ok (chunk_reply 1 (9 ∷ [])), 2)
send_two n _ = (ok (from_data (whole (1 ∷ [])) native), n)

abbrev two_chunks : Server
two_chunks = record { State = ℕ; reply = send_two }

abbrev wire_size : MxGenericType
wire_size = from_data (whole (0 ∷ 0 ∷ 1 ∷ 0 ∷ 0 ∷ 0 ∷ 0 ∷ 0 ∷ [])) native

wire_size_lem : Shorthands.int64 ascii (pos 65536) native ≡ ok wire_size
unfolding Shorthands.int64 Encode.from_value Encode.value_bytes le_bytes to_unsigned
wire_size_lem = refl

true_reply_lem : astype ascii (from_data (whole (1 ∷ [])) native) Names.bool ≡ ok (boolean true)
unfolding astype read_as
true_reply_lem = refl

first_chunk_lem : first_chunk ascii (chunk_reply 0 (7 ∷ 8 ∷ [])) ≡ ok (false, 7 ∷ 8 ∷ [])
unfolding first_chunk Unpack.unpack Unpack.unpack_loop Unpack.read_row Unpack.read_field
    Decode.view_bytes Bytes.le_value le_bytes
first_chunk_lem = refl

last_chunk_lem : first_chunk ascii (chunk_reply 1 (9 ∷ [])) ≡ ok (true, 9 ∷ [])
unfolding first_chunk Unpack.unpack Unpack.unpack_loop Unpack.read_row Unpack.read_field
    Decode.view_bytes Bytes.le_value le_bytes
last_chunk_lem = refl

abbrev none_saved : Downloads
none_saved = record { filename = []; saved = [] }

download_file-saved_example :
    ((run two_chunks (download_file ascii 2 handle handle) none_saved 0).result ≡ ok (some true))
    × ((run two_chunks (download_file ascii 2 handle handle) none_saved 0).state
        ≡ record { filename = []; saved = (handle, 7 ∷ 8 ∷ 9 ∷ []) ∷ [] })
unfolding flatten
download_file-saved_example =
    download_file-saved ascii two_chunks handle handle wire_handle wire_size
      (from_data (whole (1 ∷ [])) native) ((7 ∷ 8 ∷ []) ∷ (9 ∷ []) ∷ []) 2 none_saved 0
      wire_handle_lem wire_size_lem refl true_reply_lem
      (
        chunk_reply 0 (7 ∷ 8 ∷ []),
        refl,
        first_chunk_lem,
        (chunk_reply 1 (9 ∷ []), refl, last_chunk_lem, from_data (whole (1 ∷ [])) native, refl),
      )
      (omega arith)

abbrev an_event : EventMeta
an_event = record {
  name = 101 ∷ [];
  trigger = 0;
  issys = false;
  capture = false;
  io = record { read = 0; write = 0; lread = none; lwrite = none };
  clients = none;
}

abbrev not_capturing : Captures
not_capturing = record {
  popup_id = pos 3;
  events_meta = (pos 3, an_event) ∷ [];
  capture_set = record { values = [] };
  capture_tick = record { values = [] };
  capture_collapse = record { entries = [] };
  capture_data = [];
  capture_meta = [];
}

not_capturing-IsCapturing : IsCapturing not_capturing
unfolding Sets.has Maps.get
not_capturing-IsCapturing = record {
  with_data = λ j. refl;
  with_meta = λ j. refl;
  with_view = λ j. refl;
}

capture-IsCapturing_example :
    IsCapturing (run always_h (capture (switches true)) not_capturing tt).state
capture-IsCapturing_example =
    capture-IsCapturing always_h (switches true) not_capturing tt not_capturing-IsCapturing

abbrev attachment : FileHandler
attachment = record {
  id = 1;
  local_name = handle;
  server_handle = some handle;
  server_path = none;
  processing = false;
  uploaded = 0;
}

abbrev one_attachment : Draft
one_attachment = record {
  title = [];
  body = [];
  files = attachment ∷ [];
  fid = 1;
  saved_title = none;
  saved_body = none;
  saved_files = none;
}

one_attachment-IsNumbered : IsNumbered one_attachment
unfolding Sets.has
one_attachment-IsNumbered = record { distinct = (refl, tt); issued = (omega arith, tt) }

edit-IsNumbered_example : IsNumbered (run always_h (edit ascii (deletes 1)) one_attachment tt).state
edit-IsNumbered_example =
    edit-IsNumbered ascii always_h (deletes 1) one_attachment tt one_attachment-IsNumbered
