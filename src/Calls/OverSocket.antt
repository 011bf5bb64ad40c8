-- ===== src/Calls/OverSocket.antt =====
-- An async function over the connection itself: its calls go out by rpc_call, the server's replies come in
-- by onmessage, and what follows an await is run when its promise is settled.
use mulex_fk.Prelude.{
  ℕ, ◌<◌, ◌≡◌, true, false, Option, none, some, List, [], ◌∷◌, All, if◌then◌else◌,
}
use Prim.Native.String.{String}
use mulex_fk.Prelude.Keys.{number_key, string_key, ◌==◌}
use mulex_fk.Prelude.Results.{Error, Result, ok, throw}
use mulex_fk.Convert.Names.{Intype}
use mulex_fk.Convert.Bytes.{whole}
use mulex_fk.Convert.Encode.{MxGenericType, from_data}
use mulex_fk.Socket.State.{
  opened, PromiseId, Message, Effect, send, resolve, resolve_void, reject, notify, deliver, Socket,
}
use mulex_fk.Socket.Messages.{make_rpc_message}
use mulex_fk.Socket.Handlers.{rpc_call, onmessage, rpc_reply, wants_response}
use mulex_fk.Calls.Jobs.{Job, Request, rpc, done, throws, call, catching, start, look, write}
use mulex_fk.Calls.Servers.{Server}

-- A server by the bytes of its replies; `none` is a status that is not OK.
pub record Replies : Type 1 where
  pub State : Type 0
  pub bytes : State → String → List MxGenericType → Intype → Option (List ℕ) × State

-- What the effects so far have made of a promise; a rejection is the exception `rejection`.
unfoldable pub settled : Error → PromiseId → List Effect → Option (Result MxGenericType)
settled rejection p [] = none
settled rejection p (resolve q x ∷ effects) =
    if q == p then some (ok x) else settled rejection p effects
settled rejection p (reject q ∷ effects) =
    if q == p then some (throw rejection) else settled rejection p effects
settled rejection p (send m ∷ effects) = settled rejection p effects
settled rejection p (resolve_void q ∷ effects) = settled rejection p effects
settled rejection p (notify c up ∷ effects) = settled rejection p effects
settled rejection p (deliver c frame ∷ effects) = settled rejection p effects

pub record Ended (W S A : Type 0) : Type 0 where
  pub result : Result A
  pub state : S
  pub world : W
  pub socket : Socket

module _ (btoa : List ℕ → String) (rejection : Error) (replies : Replies) where
  open replies use {State, bytes}

  abbrev pub reply_with : Option (List ℕ) → ℕ → Socket → Socket
  reply_with none id k = onmessage (rpc_reply false id []) k
  reply_with (some response) id k = onmessage (rpc_reply true id response) k

  -- A call goes out, and its reply comes in.
  abbrev pub exchange : String → List MxGenericType → Intype → State → Socket → Socket
  exchange method args response w k =
      reply_with (bytes w method args response).0 k.messageid (rpc_call btoa method args response k)

  -- The function, whose code between two awaits runs without a break; `none` if an await never ends.
  -- Subscriptions have no reply, and are left out.
  unfoldable pub drive : {S A : Type 0} → Job S A → S → State → Socket → Option (Ended State S A)
  unfolding settled
  drive (done a) s w k = some (record { result = ok a; state = s; world = w; socket = k })
  drive (throws e) s w k = some (record { result = throw e; state = s; world = w; socket = k })
  drive (call (rpc method args response) f) s w k =
      let k' = exchange method args response w k in
      let w' = (bytes w method args response).1 in
      elim (settled rejection k.promises k'.effects) [
        | none ↦ none
        | some (ok x) ↦ drive (f x) s w' k'
        | some (throw e) ↦ some (record { result = throw e; state = s; world = w'; socket = k' })
      ]
  drive (catching (rpc method args response) f) s w k =
      let k' = exchange method args response w k in
      elim (settled rejection k.promises k'.effects) [
        | none ↦ none
        | some r ↦ drive (f r) s (bytes w method args response).1 k'
      ]
  drive (start (rpc method args response) f) s w k =
      drive f s (bytes w method args response).1 (exchange method args response w k)
  drive (call q f) s w k = none
  drive (catching q f) s w k = none
  drive (start q f) s w k = none
  drive (look f) s w k = drive (f s) s w k
  drive (write s' f) s w k = drive f s' w k

  abbrev pub reply_of : Intype → Option (List ℕ) → Result MxGenericType
  reply_of r none = throw rejection
  reply_of r (some bs) = ok (from_data (whole bs) r)

  -- The same server, as the functions above the connection see it.
  abbrev pub answer_request : State → Request → Result MxGenericType × State
  answer_request w (rpc method args response) =
      (reply_of response (bytes w method args response).0, (bytes w method args response).1)
  answer_request w q = (throw rejection, w)

  abbrev pub served : Server
  served = record { State = State; reply = answer_request }

  abbrev pub CanSend : String → List MxGenericType → Intype → Type 0
  CanSend method args response =
      (id : ℕ)
      → (m : Message) × (make_rpc_message btoa id method args (wants_response response) ≡ ok m)

  -- The function makes calls alone, and its messages can be laid out.
  abbrev pub OnlyCalls : {S A : Type 0} → Job S A → Type 0
  OnlyCalls (done a) = Unit {0}
  OnlyCalls (throws e) = Unit {0}
  OnlyCalls {S} {A} (call (rpc method args response) f) =
      CanSend method args response × ((x : MxGenericType) → OnlyCalls (f x))
  OnlyCalls (catching (rpc method args response) f) =
      CanSend method args response × ((r : Result MxGenericType) → OnlyCalls (f r))
  OnlyCalls (start (rpc method args response) f) = CanSend method args response × OnlyCalls f
  OnlyCalls (call q f) = ⊥
  OnlyCalls (catching q f) = ⊥
  OnlyCalls (start q f) = ⊥
  OnlyCalls {S} (look f) = (s : S) → OnlyCalls (f s)
  OnlyCalls (write s f) = OnlyCalls f

abbrev pub IsEarlier : ℕ → Effect → Type 0
IsEarlier n (resolve q x) = q < n
IsEarlier n (reject q) = q < n
IsEarlier n _ = Unit {0}

-- The connection is up, and no promise is settled that is not yet made.
pub record IsUp (k : Socket) : Type 0 where
  pub ready : k.isready ≡ true
  pub up : k.ready_state ≡ opened
  pub earlier : All (IsEarlier k.promises) k.effects
