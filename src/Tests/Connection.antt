-- ===== src/Tests/Connection.antt =====
-- websocket.ts in runs of a few turns.
use mulex_fk.Prelude.{ℕ, ◌+◌, ◌≤◌, ◌≡◌, refl, true, none, List, [], ◌∷◌, ◌++◌, arith}
use Prim.Native.String.{String}
use mulex_fk.Convert.Names.{native}
use mulex_fk.Convert.Bytes.{whole}
use mulex_fk.Convert.Encode.{from_data, concat_data}
use mulex_fk.Socket.State.{Socket, send, resolve, rpc}
use mulex_fk.Socket.Messages.{binary_string, make_rpc_message}
use mulex_fk.Socket.Handlers.{new_socket, rpc_call, onopen, onmessage, resume, rpc_reply}
use mulex_fk.Socket.Runs.{Turn, calls, opens, disconnects, turn, Reach, here, next}
use mulex_fk.Socket.Counting.{pending, settled, issued}
use mulex_fk.Socket.Ids.{HasUniqueIds, Reach-HasUniqueIds}
use mulex_fk.Socket.Modes.{HasOneSocket, Reach-HasOneSocket}
use mulex_fk.Socket.Replies.{onmessage-rpc_call}
use mulex_fk.Socket.Settling.{settled_once, none_lost, pending_stranded}

abbrev btoa : List ℕ → String
btoa bytes = ""

abbrev call : Turn
call = calls "mulex::RdbRead" [] native

-- The connection opens.
abbrev up : Socket
up = turn btoa opens new_socket

up_reached : Reach btoa new_socket up
up_reached = next here opens (refl, refl)

-- A call is sent.
abbrev asked : Socket
asked = turn btoa call up

asked_reached : Reach btoa new_socket asked
asked_reached = next up_reached call tt

Reach-HasUniqueIds_example : HasUniqueIds asked
Reach-HasUniqueIds_example = Reach-HasUniqueIds btoa asked_reached

Reach-HasOneSocket_example : HasOneSocket asked
Reach-HasOneSocket_example = Reach-HasOneSocket btoa asked_reached

settled_once_example : pending 0 asked + settled 0 asked ≤ issued 0 asked.promises
settled_once_example = settled_once 0 btoa asked_reached

none_lost_example : pending 0 asked + settled 0 asked ≡ issued 0 asked.promises
unfolding asked_reached up_reached
none_lost_example = none_lost 0 btoa asked_reached ((tt, (λ e. cc)), (λ e. cc))

-- The connection is lost before the reply.
abbrev lost : Socket
lost = turn btoa disconnects asked

pending_stranded_example : settled 0 lost ≡ 0
unfolding turn rpc_call onopen resume make_rpc_message concat_data binary_string
pending_stranded_example =
    pending_stranded 0 btoa asked_reached (omega arith) (refl, (λ e. cc)) here

onmessage-rpc_call_example :
    (onmessage (rpc_reply true 0 (7 ∷ [])) (rpc_call btoa "mulex::RdbRead" [] native up)).effects
    ≡ (up.effects ++ (send (rpc "mulex::RdbRead" none 0 true) ∷ []))
      ++ (resolve 0 (from_data (whole (7 ∷ [])) native) ∷ [])
unfolding turn onopen make_rpc_message concat_data binary_string
onmessage-rpc_call_example =
    onmessage-rpc_call btoa "mulex::RdbRead" [] native up (rpc "mulex::RdbRead" none 0 true) true
      (7 ∷ []) refl refl refl
