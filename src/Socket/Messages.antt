-- ===== src/Socket/Messages.antt =====
-- websocket.ts: make_rpc_message and make_evt_message.
use mulex_fk.Prelude.{ℕ, ◌+◌, ◌≡◌, Bool, Option, none, some, List, [], ◌∷◌, length, arith}
use mulex_fk.Prelude.Chunks.{chunk_loop, chunk_loop_total}
use mulex_fk.Prelude.Results.{Result, ok, ◌>>=◌}
use mathlib.Core.List.{flatten}
use Prim.Native.String.{String}
use mulex_fk.Convert.Encode.{MxGenericType, concat_data}
use mulex_fk.Socket.State.{Message, rpc, evt}

abbrev chunk_size : ℕ
chunk_size = 0x8000

-- The loop over chunks of the buffer, with `String.fromCharCode.apply(null, chunk)` one character for
-- each byte, appended to `string`.
append_chunks : Option (List (List ℕ)) → List ℕ
append_chunks none = []
append_chunks (some chunks) = flatten chunks

unfoldable pub binary_string : List ℕ → List ℕ
unfolding append_chunks
binary_string buffer = append_chunks (chunk_loop (length buffer + 1) buffer chunk_size 0)

-- The arguments of a call are all the bytes of the buffer, one character each, for every length.
pub binary_string_lem : (buffer : List ℕ) → binary_string buffer ≡ buffer
unfolding binary_string
binary_string_lem buffer =
    let (cs, e, _, whole) =
      chunk_loop_total (length buffer + 1) buffer chunk_size 0 (omega arith) (omega arith) in
    rw e whole

module _ (btoa : List ℕ → String) where
  abbrev rpc_args : List MxGenericType → String → Option String
  rpc_args [] rawData = none
  rpc_args (x ∷ args) rawData = some rawData

  -- The message for an id; make_rpc_message takes the id from `messageid` and counts it up.
  unfoldable pub make_rpc_message : ℕ → String → List MxGenericType → Bool → Result Message
  unfolding binary_string
  make_rpc_message id method args response = do
    buffer ← concat_data args
    ok (rpc method (rpc_args args (btoa (binary_string buffer))) id response)

unfoldable pub make_evt_message : String → ℕ → Message
make_evt_message event opcode = evt opcode event
