-- ===== src/Socket/State.antt =====
-- websocket.ts: the fields of MxWebsocket, and what its callbacks leave to be seen from outside.
use mulex_fk.Prelude.{ℕ, Bool, Option, List}
use Prim.Native.String.{String}
use mulex_fk.Convert.Names.{Intype}
use mulex_fk.Convert.Encode.{MxGenericType}

-- A Function that the program hands in (an event callback, or one of on_change), by a name.
abbrev pub Callback : Type 0
Callback = ℕ

-- A Promise that a method returned, by the number under which it was made.
abbrev pub PromiseId : Type 0
PromiseId = ℕ

-- WebSocket.readyState
pub data ReadyState : Type 0 where
  connecting opened closing closed : ReadyState

-- The JSON texts that are sent, as the objects that JSON.stringify is given.
pub data Message : Type 0 where
  rpc : (method : String) (args : Option String) (messageid : ℕ) (response : Bool) → Message
  evt : (opcode : ℕ) (event : String) → Message

-- An entry of deferred_p: its resolve and reject functions are those of one promise.
pub record Deferred : Type 0 where
  pub promise : PromiseId
  pub response : Intype

-- What stands behind an `await this.when_ready()`, or the plain promise of a when_ready.
pub data Waiter : Type 0 where
  call_waits : Message → ℕ → Deferred → Waiter
  subscribe_waits : Message → String → Option Callback → PromiseId → Waiter
  unsubscribe_waits : Message → String → PromiseId → Waiter
  ready_waits : PromiseId → Waiter

-- What can be seen from outside, in the order in which it happens.
pub data Effect : Type 0 where
  send : Message → Effect
  resolve : PromiseId → MxGenericType → Effect
  resolve_void : PromiseId → Effect
  reject : PromiseId → Effect
  notify : Callback → Bool → Effect
  deliver : Callback → List ℕ → Effect

pub record Socket : Type 0 where
  pub ready_state : ReadyState
  pub messageid : ℕ
  pub deferred_p : List (ℕ × Deferred)
  pub isready : Bool
  pub waiting_p : List Waiter
  pub on_change : List Callback
  pub event_subscriptions : List (String × Option Callback)
  -- whether the onclose handler in place reconnects, and the reconnections that its timers still owe
  pub reconnect : Bool
  pub timers : ℕ
  -- continuations whose promise is resolved and that the browser has not resumed yet
  pub resumed : List Waiter
  -- the promises made so far
  pub promises : ℕ
  pub effects : List Effect
