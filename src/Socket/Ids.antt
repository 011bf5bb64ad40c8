-- ===== src/Socket/Ids.antt =====
-- websocket.ts: the ids of calls, over whole runs.
use mulex_fk.Prelude.{
  ℕ, suc, ◌+◌, ◌≤◌, ◌≡◌, ◌≢◌, refl, ap, Option, none, some, List, [], ◌∷◌, arith, count,
  count-append, if◌then◌else◌,
}
use Prim.Native.String.{String}
use mulex_fk.Prelude.Keys.{number_key, string_key}
use mulex_fk.Prelude.Results.{Result, ok, throw}
use mulex_fk.Stores.Maps.{get}
use mulex_fk.Convert.Names.{Intype}
use mulex_fk.Socket.State.{
  Callback, Message, Deferred, Waiter, call_waits, subscribe_waits, unsubscribe_waits, ready_waits,
  Socket,
}
use mulex_fk.Socket.Handlers.{
  new_socket, resume, rpc_call, subscribe, unsubscribe, when_ready, on_connection_change, close,
  onopen, onmessage, onclose, on_timer, Incoming, rpc_reply, evt_frame, unknown, now_or_later,
  settle, deliver_to, call_made,
}
use mulex_fk.Socket.Messages.{make_evt_message}
use mulex_fk.Socket.Counting.{waits_with_id, under_way, issued, count_key-put, count_key-delete}
use mulex_fk.Socket.Runs.{
  Turn, calls, subscribes, unsubscribes, waits, listens, closes, opens, receives, disconnects,
  rings, resumes, Enabled, resume_next, turn, Reach, here, next,
}

-- A step that issues ids no faster than it counts them up.
abbrev Counts : ℕ → Socket → Socket → Type 0
Counts k s u = under_way k u + issued k s.messageid ≤ under_way k s + issued k u.messageid

module _ (k : ℕ) where
  resume-under_way :
      (w : Waiter) (s : Socket)
      → (under_way k (resume w s) ≤ under_way k s + (if waits_with_id k w then 1 else 0))
        × ((resume w s).messageid ≡ s.messageid)
  unfolding resume
  resume-under_way (call_waits m id d) s = ground (arith, count_key-put k s.deferred_p id d)
  resume-under_way (subscribe_waits m event callback p) s = ground arith
  resume-under_way (unsubscribe_waits m event p) s = ground arith
  resume-under_way (ready_waits p) s = ground arith

  now_or_later-under_way :
      (w : Waiter) (s : Socket)
      → (under_way k (now_or_later w s) ≤ under_way k s + (if waits_with_id k w then 1 else 0))
        × ((now_or_later w s).messageid ≡ s.messageid)
  now_or_later-under_way w s =
      ground (arith, resume-under_way w s, count-append (waits_with_id k) s.waiting_p (w ∷ []))

  call_made-Counts :
      (btoa : List ℕ → String) (r : Result Message) (response : Intype) (s : Socket)
      → Counts k s (call_made btoa r response s)
  call_made-Counts btoa (throw e) _ s = ground arith
  call_made-Counts btoa (ok m) response s =
      let w = call_waits m s.messageid (record { promise = s.promises; response = response }) in
      ground (
        arith,
        now_or_later-under_way w
            (record s { promises = suc s.promises; messageid = suc s.messageid }),
      )

  onmessage-Counts : (m : Incoming) (s : Socket) → Counts k s (onmessage m s)
  unfolding onmessage
  onmessage-Counts (rpc_reply good id response) s = go (get s.deferred_p id)
    where
      go : (o : Option Deferred) → Counts k s (settle good id response o s)
      go none = omega arith
      go (some d) = omega (arith, count_key-delete k s.deferred_p id)
  onmessage-Counts (evt_frame event response) s = go (get s.event_subscriptions event)
    where
      go : (o : Option (Option Callback)) → Counts k s (deliver_to o response s)
      go none = omega arith
      go (some none) = omega arith
      go (some (some c)) = omega arith
  onmessage-Counts unknown s = omega arith

  resume_next-Counts :
      (ws : List Waiter) (s : Socket) → s.resumed ≡ ws → Counts k s (resume_next ws s)
  unfolding resume_next
  resume_next-Counts [] s e = omega arith
  resume_next-Counts (w ∷ ws) s e =
      ground (arith, resume-under_way w (record s { resumed = ws }), ap (count (waits_with_id k)) e)

  turn-Counts :
      (btoa : List ℕ → String) (t : Turn) (s : Socket)
      → t ≢ disconnects
      → Counts k s (turn btoa t s)
  unfolding turn rpc_call subscribe unsubscribe when_ready on_connection_change close onopen
      on_timer
  turn-Counts btoa (calls method args response) s h = call_made-Counts btoa _ response s
  turn-Counts btoa (subscribes event callback) s h = ground (
    arith,
    now_or_later-under_way (subscribe_waits (make_evt_message event 0) event callback s.promises)
        (record s { promises = suc s.promises }),
  )
  turn-Counts btoa (unsubscribes event) s h = ground (
    arith,
    now_or_later-under_way (unsubscribe_waits (make_evt_message event 1) event s.promises)
        (record s { promises = suc s.promises }),
  )
  turn-Counts btoa waits s h = ground (
    arith,
    now_or_later-under_way (ready_waits s.promises) (record s { promises = suc s.promises }),
  )
  turn-Counts btoa (listens callback) s h = omega arith
  turn-Counts btoa closes s h = ground arith
  turn-Counts btoa opens s h = omega (arith, count-append (waits_with_id k) s.resumed s.waiting_p)
  turn-Counts btoa (receives m) s h = onmessage-Counts m s
  turn-Counts btoa disconnects s h = absurd (h refl)
  turn-Counts btoa rings s h = omega arith
  turn-Counts btoa resumes s h = resume_next-Counts s.resumed s refl

none_under_way : (k : ℕ) (s : Socket) → s.resumed ≡ [] → under_way k (onclose s) ≤ 0
unfolding onclose
none_under_way k s idle = omega (arith, ap (count (waits_with_id k)) idle)

-- Every id below the counter is under way at most once, and none above it at all.
pub record HasUniqueIds (s : Socket) : Type 0 where
  pub unique : (k : ℕ) → under_way k s ≤ issued k s.messageid

pub turn-HasUniqueIds :
    (btoa : List ℕ → String) (t : Turn) {s : Socket}
    → Enabled t s
    → HasUniqueIds s
    → HasUniqueIds (turn btoa t s)
unfolding turn
turn-HasUniqueIds btoa disconnects {s} (idle, up) v = record {
  unique = λ k. omega (arith, none_under_way k s idle);
}
turn-HasUniqueIds btoa t {s} enabled v = record {
  unique = λ k. omega (arith, turn-Counts k btoa t s (λ e. cc), v.unique k);
}

-- In every state that a new connection reaches, whatever the program, the server and the network do,
-- each id below `messageid` belongs to at most one call under way, and no call has a later id.
pub Reach-HasUniqueIds :
    (btoa : List ℕ → String) {s : Socket} → Reach btoa new_socket s → HasUniqueIds s
Reach-HasUniqueIds btoa here = record { unique = λ k. ground arith }
Reach-HasUniqueIds btoa (next r t enabled) =
    turn-HasUniqueIds btoa t enabled (Reach-HasUniqueIds btoa r)
