-- ===== src/Socket/Runs.antt =====
-- websocket.ts under a browser's event loop: a task runs to its end, and then the continuations that
-- it has resumed, before the next task of the socket or the timer. The program's own calls may come
-- at any time, also from a callback. onmessage waits for its message's text, so it may run late.
use mulex_fk.Prelude.{ℕ, ◌<◌, ◌≡◌, ◌≢◌, Option, List, [], ◌∷◌}
use Prim.Native.String.{String}
use mulex_fk.Convert.Names.{Intype}
use mulex_fk.Convert.Encode.{MxGenericType}
use mulex_fk.Socket.State.{Callback, connecting, closed, Waiter, Socket}
use mulex_fk.Socket.Handlers.{
  resume, rpc_call, subscribe, unsubscribe, when_ready, on_connection_change, close, onopen,
  onmessage, onclose, on_timer, Incoming,
}

-- A turn of the event loop.
pub data Turn : Type 0 where
  calls : String → List MxGenericType → Intype → Turn
  subscribes : String → Option Callback → Turn
  unsubscribes : String → Turn
  waits : Turn
  listens : Callback → Turn
  closes : Turn
  opens : Turn
  receives : Incoming → Turn
  disconnects : Turn
  rings : Turn
  resumes : Turn

-- When the browser may take such a turn.
abbrev pub Enabled : Turn → Socket → Type 0
Enabled opens s = (s.resumed ≡ []) × (s.ready_state ≡ connecting)
Enabled (receives m) s = s.resumed ≡ []
Enabled disconnects s = (s.resumed ≡ []) × (s.ready_state ≢ closed)
Enabled rings s = (s.resumed ≡ []) × (0 < s.timers)
Enabled _ s = Unit

-- The first continuation that waits to be resumed.
unfoldable pub resume_next : List Waiter → Socket → Socket
resume_next [] s = s
resume_next (w ∷ ws) s = resume w (record s { resumed = ws })

module _ (btoa : List ℕ → String) where
  unfoldable pub turn : Turn → Socket → Socket
  turn (calls method args response) s = rpc_call btoa method args response s
  turn (subscribes event callback) s = subscribe event callback s
  turn (unsubscribes event) s = unsubscribe event s
  turn waits s = when_ready s
  turn (listens callback) s = on_connection_change callback s
  turn closes s = close s
  turn opens s = onopen s
  turn (receives m) s = onmessage m s
  turn disconnects s = onclose s
  turn rings s = on_timer s
  turn resumes s = resume_next s.resumed s

  pub data Reach (s : Socket) : Socket → Type 0 where
    here : Reach s s
    next : {u : Socket} → Reach s u → (t : Turn) → Enabled t u → Reach s (turn t u)
