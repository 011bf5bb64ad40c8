-- ===== src/Socket/Modes.antt =====
-- websocket.ts: the link's part of the state (readyState, isready, the timer of onclose), over runs.
use mulex_fk.Prelude.{
  ℕ, suc, ◌≤◌, ◌≡◌, ◌⊎◌, refl, Bool, true, false, Option, none, some, List, [], ◌∷◌, ◌++◌, arith,
  if◌then◌else◌, inl,
}
use Prim.Native.String.{String}
use mulex_fk.Prelude.Keys.{number_key, string_key}
use mulex_fk.Prelude.Results.{Result, ok, throw}
use mulex_fk.Stores.Maps.{get}
use mulex_fk.Convert.Names.{Intype}
use mulex_fk.Socket.State.{
  Callback, opened, closing, closed, Message, Deferred, Waiter, call_waits, subscribe_waits,
  unsubscribe_waits, ready_waits, Socket,
}
use mulex_fk.Socket.Messages.{make_evt_message}
use mulex_fk.Socket.Handlers.{
  new_socket, resume, rpc_call, subscribe, unsubscribe, when_ready, on_connection_change, close,
  onopen, onclose, on_timer, onmessage, Incoming, rpc_reply, settle, now_or_later, call_made,
  evt_frame, unknown, deliver_to,
}
use mulex_fk.Socket.Runs.{
  Turn, calls, subscribes, unsubscribes, waits, listens, closes, opens, receives, disconnects,
  rings, resumes, Enabled, turn, Reach, here, next, resume_next,
}

-- The connection's part of the state is that of another: a step of the program's own.
pub record IsSameLink (s u : Socket) : Type 0 where
  pub ready_state : u.ready_state ≡ s.ready_state
  pub timers : u.timers ≡ s.timers
  pub reconnect : u.reconnect ≡ s.reconnect
  pub isready : u.isready ≡ s.isready

resume-IsSameLink : (w : Waiter) (s : Socket) → IsSameLink s (resume w s)
unfolding resume
resume-IsSameLink (call_waits m id d) s = ground arith
resume-IsSameLink (subscribe_waits m event callback p) s = ground arith
resume-IsSameLink (unsubscribe_waits m event p) s = ground arith
resume-IsSameLink (ready_waits p) s = ground arith

now_or_later-IsSameLink : (w : Waiter) (s : Socket) → IsSameLink s (now_or_later w s)
now_or_later-IsSameLink w s = go s.isready
  where
    go :
        (b : Bool)
        → IsSameLink s (if b then resume w s else record s { waiting_p = s.waiting_p ++ (w ∷ []) })
    go true = resume-IsSameLink w s
    go false = record { ready_state = refl; timers = refl; reconnect = refl; isready = refl }

call_made-IsSameLink :
    (btoa : List ℕ → String) (r : Result Message) (intype : Intype) (s : Socket)
    → IsSameLink s (call_made btoa r intype s)
call_made-IsSameLink btoa (throw e) intype s = record {
  ready_state = refl;
  timers = refl;
  reconnect = refl;
  isready = refl;
}
call_made-IsSameLink btoa (ok m) intype s =
    let t =
      now_or_later-IsSameLink
        (call_waits m s.messageid (record { promise = s.promises; response = intype }))
        (record s { promises = suc s.promises; messageid = suc s.messageid }) in
    record {
      ready_state = t.ready_state;
      timers = t.timers;
      reconnect = t.reconnect;
      isready = t.isready;
    }

onmessage-IsSameLink : (m : Incoming) (s : Socket) → IsSameLink s (onmessage m s)
unfolding onmessage
onmessage-IsSameLink (rpc_reply good id bytes) s = go (get s.deferred_p id)
  where
    go : (o : Option Deferred) → IsSameLink s (settle good id bytes o s)
    go none = ground arith
    go (some d) = ground arith
onmessage-IsSameLink (evt_frame event bytes) s = go (get s.event_subscriptions event)
  where
    go : (o : Option (Option Callback)) → IsSameLink s (deliver_to o bytes s)
    go none = ground arith
    go (some none) = ground arith
    go (some (some c)) = ground arith
onmessage-IsSameLink unknown s = ground arith

-- The state of the link: at most one reconnection is owed, and one only while the socket is closed;
-- `isready` says that the socket has been opened and has not gone down since.
pub record HasOneSocket (s : Socket) : Type 0 where
  pub owed : s.timers ≤ 1
  pub down : (s.timers ≡ 0) ⊎ (s.ready_state ≡ closed)
  pub ready : s.isready ≡ true → (s.ready_state ≡ opened) ⊎ (s.ready_state ≡ closing)

HasOneSocket-of_same : {s u : Socket} → IsSameLink s u → HasOneSocket s → HasOneSocket u
HasOneSocket-of_same {s} {u} l v = record {
  owed = ground arith;
  down = ground arith;
  ready = ground arith;
}

renumber : (s : Socket) → HasOneSocket s → HasOneSocket (record s { promises = suc s.promises })
renumber s v = record { owed = v.owed; down = v.down; ready = v.ready }

resume_next-HasOneSocket :
    (ws : List Waiter) (s : Socket) → HasOneSocket s → HasOneSocket (resume_next ws s)
unfolding resume_next
resume_next-HasOneSocket [] s v = v
resume_next-HasOneSocket (w ∷ ws) s v =
    HasOneSocket-of_same (resume-IsSameLink w (record s { resumed = ws }))
      (record { owed = v.owed; down = v.down; ready = v.ready })

pub turn-HasOneSocket :
    (btoa : List ℕ → String) (t : Turn) (s : Socket)
    → Enabled t s
    → HasOneSocket s
    → HasOneSocket (turn btoa t s)
unfolding turn rpc_call subscribe unsubscribe when_ready on_connection_change close onopen onclose
    on_timer
turn-HasOneSocket btoa (calls method args intype) s h v =
    HasOneSocket-of_same (call_made-IsSameLink btoa _ intype s) v
turn-HasOneSocket btoa (receives m) s h v = HasOneSocket-of_same (onmessage-IsSameLink m s) v
turn-HasOneSocket btoa closes s h v = ground arith
turn-HasOneSocket btoa opens s h v = ground arith
turn-HasOneSocket btoa disconnects s h v = ground arith
turn-HasOneSocket btoa rings s h v = ground arith
turn-HasOneSocket btoa (subscribes event callback) s h v =
    HasOneSocket-of_same
      (now_or_later-IsSameLink
        (subscribe_waits (make_evt_message event 0) event callback s.promises)
        (record s { promises = suc s.promises }))
      (renumber s v)
turn-HasOneSocket btoa (unsubscribes event) s h v =
    HasOneSocket-of_same
      (now_or_later-IsSameLink (unsubscribe_waits (make_evt_message event 1) event s.promises)
        (record s { promises = suc s.promises }))
      (renumber s v)
turn-HasOneSocket btoa waits s h v =
    HasOneSocket-of_same
      (now_or_later-IsSameLink (ready_waits s.promises) (record s { promises = suc s.promises }))
      (renumber s v)
turn-HasOneSocket btoa (listens callback) s h v = record {
  owed = v.owed;
  down = v.down;
  ready = v.ready;
}
turn-HasOneSocket btoa resumes s h v = resume_next-HasOneSocket s.resumed s v

-- In every state that a new connection reaches there is one socket at most: a reconnection is owed
-- only while the socket is closed, and never two; and the connection is taken for ready only while
-- its socket is open or closing.
pub Reach-HasOneSocket :
    (btoa : List ℕ → String) {s : Socket} → Reach btoa new_socket s → HasOneSocket s
Reach-HasOneSocket btoa here = record { owed = omega arith; down = inl refl; ready = λ e. cc }
Reach-HasOneSocket btoa (next {u} r t enabled) =
    turn-HasOneSocket btoa t u enabled (Reach-HasOneSocket btoa r)
