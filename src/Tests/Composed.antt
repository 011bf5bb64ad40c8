-- ===== src/Tests/Composed.antt =====
-- Async functions over the connection of websocket.ts, on concrete inputs.
use mulex_fk.Prelude.{ℕ, Bool, true, false, if◌then◌else◌, ◌≡◌, refl, none, some, List, [], ◌∷◌}
use Prim.Native.String.{String}
use mulex_fk.Prelude.Results.{Result, ok, throw, type_error}
use mulex_fk.Convert.Names.{native, generic}
use mulex_fk.Convert.Bytes.{whole}
use mulex_fk.Convert.Encode.{MxGenericType, from_data, concat_data}
use mulex_fk.Socket.State.{opened, Socket}
use mulex_fk.Socket.Handlers.{new_socket}
use mulex_fk.Socket.Messages.{binary_string, make_rpc_message}
use mulex_fk.Calls.Jobs.{Job, rpc, done, call, catching, write}
use mulex_fk.Calls.Servers.{run}
use mulex_fk.Calls.OverSocket.{Replies, drive, OnlyCalls, IsUp}
use mulex_fk.Calls.Composed.{drive-run}

abbrev btoa : List ℕ → String
btoa bytes = ""

-- A server that answers the first call with a byte, and no other.
abbrev once : Replies
once = record {
  State = Bool;
  bytes = λ w method args response. (if w then some (7 ∷ []) else none, false);
}

abbrev up : Socket
up = record new_socket { ready_state = opened; isready = true }

up-IsUp : IsUp up
up-IsUp = record { ready = refl; up = refl; earlier = tt }

abbrev after_both : MxGenericType → Result MxGenericType → Job ℕ (List MxGenericType)
after_both keys (ok x) = write 1 (done (keys ∷ (x ∷ [])))
after_both keys (throw e) = write 2 (done (keys ∷ []))

abbrev two_calls : Job ℕ (List MxGenericType)
two_calls =
    call (rpc "mulex::RdbListAllKeys" [] generic)
      (λ keys. catching (rpc "mulex::RdbRead" [] native) (λ r. after_both keys r))

after_both-OnlyCalls :
    (keys : MxGenericType) (r : Result MxGenericType)
    → OnlyCalls btoa type_error once (after_both keys r)
after_both-OnlyCalls keys (ok x) = tt
after_both-OnlyCalls keys (throw e) = tt

two_calls-OnlyCalls : OnlyCalls btoa type_error once two_calls
unfolding make_rpc_message concat_data binary_string
two_calls-OnlyCalls = ((λ id. (_, refl)), (λ keys. ((λ id. (_, refl)), after_both-OnlyCalls keys)))

drive-run_example :
    (k' : Socket) × (drive btoa type_error once two_calls 0 true up
      ≡ some (record {
        result = ok (from_data (whole (7 ∷ [])) generic ∷ []);
        state = 2;
        world = false;
        socket = k';
      }))
    × IsUp k'
    × (k'.messageid ≡ 2)
unfolding run
drive-run_example = drive-run btoa type_error once two_calls 0 true up two_calls-OnlyCalls up-IsUp
