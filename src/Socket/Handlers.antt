-- ===== src/Socket/Handlers.antt =====
-- websocket.ts: the constructor, the methods, and the callbacks of the socket and of its timer.
use mulex_fk.Prelude.{
  ℕ, suc, ◌-◌, Bool, true, false, Option, none, some, List, [], ◌∷◌, ◌++◌, map, if◌then◌else◌,
}
use mulex_fk.Prelude.Results.{Result, ok, throw}
use mulex_fk.Prelude.Keys.{number_key, string_key}
use Prim.Native.String.{String}
use mulex_fk.Convert.Names.{Intype, native, no_response}
use mulex_fk.Convert.Bytes.{whole}
use mulex_fk.Convert.Encode.{MxGenericType, from_data}
use mulex_fk.Stores.Maps.{get, put, delete}
use mulex_fk.Socket.State.{
  Callback, PromiseId, ReadyState, connecting, opened, closing, closed, Message, Deferred, Waiter,
  call_waits, subscribe_waits, unsubscribe_waits, ready_waits, Effect, send, resolve, resolve_void,
  reject, notify, deliver, Socket,
}
use mulex_fk.Socket.Messages.{make_rpc_message, make_evt_message}

-- The state that the constructor leaves.
abbrev pub new_socket : Socket
new_socket = record {
  ready_state = connecting;
  messageid = 0;
  deferred_p = [];
  isready = false;
  waiting_p = [];
  on_change = [];
  event_subscriptions = [];
  reconnect = true;
  timers = 0;
  resumed = [];
  promises = 0;
  effects = [];
}

abbrev pub is_open : ReadyState → Bool
is_open opened = true
is_open _ = false

abbrev pub emit : List Effect → Socket → Socket
emit es s = record s { effects = s.effects ++ es }

-- `this.socket.send(data)`: what is sent on a socket that is closing or closed is dropped.
abbrev pub socket_send : Message → Socket → Socket
socket_send m s = if is_open s.ready_state then emit (send m ∷ []) s else s

-- The executor of the promise in rpc_call.
abbrev pub send_call : Message → ℕ → Deferred → Socket → Socket
send_call m id d s = let s' = socket_send m s in record s' { deferred_p = put s'.deferred_p id d }

-- `MxGenericType.fromData(new Uint8Array([]))`
abbrev pub no_data : MxGenericType
no_data = from_data (whole []) native

abbrev pub send_subscribe : Message → String → Option Callback → PromiseId → Socket → Socket
send_subscribe m event callback p s =
    let s' = socket_send m s in
    emit (resolve p no_data ∷ [])
      (record s' { event_subscriptions = put s'.event_subscriptions event callback })

abbrev pub send_unsubscribe : Message → String → PromiseId → Socket → Socket
send_unsubscribe m event p s =
    let s' = socket_send m s in
    emit (resolve p no_data ∷ [])
      (record s' { event_subscriptions = delete s'.event_subscriptions event })

-- What follows an `await this.when_ready()`.
unfoldable pub resume : Waiter → Socket → Socket
unfolding put delete
resume (call_waits m id d) s = send_call m id d s
resume (subscribe_waits m event callback p) s = send_subscribe m event callback p s
resume (unsubscribe_waits m event p) s = send_unsubscribe m event p s
resume (ready_waits p) s = emit (resolve_void p ∷ []) s

-- A method runs up to its wait, or through if the socket is ready.
abbrev pub now_or_later : Waiter → Socket → Socket
now_or_later w s =
    if s.isready then resume w s else record s { waiting_p = s.waiting_p ++ (w ∷ []) }

abbrev pub wants_response : Intype → Bool
wants_response no_response = false
wants_response _ = true

module _ (btoa : List ℕ → String) where
  -- An exception in make_rpc_message rejects the promise that the async method returns.
  abbrev pub call_made : Result Message → Intype → Socket → Socket
  call_made (throw e) _ s =
      emit (reject s.promises ∷ [])
        (record s { promises = suc s.promises; messageid = suc s.messageid })
  call_made (ok m) response s =
      now_or_later (call_waits m s.messageid (record { promise = s.promises; response = response }))
        (record s { promises = suc s.promises; messageid = suc s.messageid })

  unfoldable pub rpc_call : String → List MxGenericType → Intype → Socket → Socket
  unfolding resume make_rpc_message
  rpc_call method args response s =
      call_made (make_rpc_message btoa s.messageid method args (wants_response response)) response s

unfoldable pub subscribe : String → Option Callback → Socket → Socket
unfolding resume make_evt_message
subscribe event callback s =
    now_or_later (subscribe_waits (make_evt_message event 0) event callback s.promises)
      (record s { promises = suc s.promises })

unfoldable pub unsubscribe : String → Socket → Socket
unfolding resume make_evt_message
unsubscribe event s =
    now_or_later (unsubscribe_waits (make_evt_message event 1) event s.promises)
      (record s { promises = suc s.promises })

unfoldable pub when_ready : Socket → Socket
unfolding resume
when_ready s = now_or_later (ready_waits s.promises) (record s { promises = suc s.promises })

unfoldable pub on_connection_change : Callback → Socket → Socket
on_connection_change callback s = record s { on_change = s.on_change ++ (callback ∷ []) }

unfoldable pub close : Socket → Socket
close s = if is_open s.ready_state then record s { reconnect = false; ready_state = closing } else s

-- The callbacks of the program are not run in the model: that they are called is an effect.
unfoldable pub onopen : Socket → Socket
onopen s = emit (map (λ c. notify c true) s.on_change) (record s {
  ready_state = opened;
  isready = true;
  resumed = s.resumed ++ s.waiting_p;
  waiting_p = [];
})

-- What the server sends, parsed: a reply to a call, an event, or anything else.
pub data Incoming : Type 0 where
  rpc_reply : (status_ok : Bool) (messageid : ℕ) (response : List ℕ) → Incoming
  evt_frame : (event : String) (response : List ℕ) → Incoming
  unknown : Incoming

abbrev pub answer : Bool → List ℕ → Deferred → Effect
answer true response d = resolve d.promise (from_data (whole response) d.response)
answer false response d = reject d.promise

abbrev pub settle : Bool → ℕ → List ℕ → Option Deferred → Socket → Socket
settle good id response none s = s
settle good id response (some d) s = record s {
  effects = s.effects ++ (answer good response d ∷ []);
  deferred_p = delete s.deferred_p id;
}

abbrev pub deliver_to : Option (Option Callback) → List ℕ → Socket → Socket
deliver_to (some (some callback)) response s = emit (deliver callback response ∷ []) s
deliver_to (some none) response s = s
deliver_to none response s = s

unfoldable pub onmessage : Incoming → Socket → Socket
unfolding get delete
onmessage (rpc_reply good id response) s = settle good id response (get s.deferred_p id) s
onmessage (evt_frame event response) s = deliver_to (get s.event_subscriptions event) response s
onmessage unknown s = s

-- The callbacks are called first, while `isready` still stands.
unfoldable pub onclose : Socket → Socket
onclose s =
    let s' = emit (map (λ c. notify c false) s.on_change) s in
    record s' {
      ready_state = closed;
      messageid = 0;
      deferred_p = [];
      isready = false;
      waiting_p = [];
      timers = if s'.reconnect then suc s'.timers else s'.timers;
    }

-- The timer that onclose has set: a new WebSocket, and setupCallbacks.
unfoldable pub on_timer : Socket → Socket
on_timer s = record s { ready_state = connecting; reconnect = true; timers = s.timers - 1 }
