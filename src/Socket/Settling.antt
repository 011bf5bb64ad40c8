-- ===== src/Socket/Settling.antt =====
-- websocket.ts: the promises that the methods return, over whole runs.
use mulex_fk.Prelude.{
  ℕ, suc, ◌+◌, ◌≤◌, ◌<◌, ◌≡◌, ◌≢◌, refl, ap, true, false, List, [], map, arith, count, count-append,
}
use Prim.Native.String.{String}
use mulex_fk.Socket.State.{
  PromiseId, subscribe_waits, unsubscribe_waits, ready_waits, notify, Socket,
}
use mulex_fk.Socket.Messages.{make_evt_message}
use mulex_fk.Socket.Handlers.{
  new_socket, rpc_call, subscribe, unsubscribe, when_ready, on_connection_change, close, onopen,
  onclose, on_timer,
}
use mulex_fk.Socket.Counting.{waits_for, settles, pending, settled, issued, count-settles-notify}
use mulex_fk.Socket.Ids.{HasUniqueIds, turn-HasUniqueIds, Reach-HasUniqueIds}
use mulex_fk.Socket.Promises.{
  Keeps, now_or_later-pending, call_made-Keeps, onmessage-Keeps, resume_next-Keeps,
}
use mulex_fk.Socket.Runs.{
  Turn, calls, subscribes, unsubscribes, waits, listens, closes, opens, receives, disconnects,
  rings, resumes, Enabled, turn, Reach, here, next,
}

issued_zero : (n : ℕ) → issued n 0 ≡ 0
issued_zero n = ground arith

module _ (p : PromiseId) (btoa : List ℕ → String) where
  turn-Keeps :
      (t : Turn) (s : Socket) → t ≢ disconnects → HasUniqueIds s → Keeps p s (turn btoa t s)
  unfolding turn rpc_call subscribe unsubscribe when_ready on_connection_change close onopen
      on_timer
  turn-Keeps (calls method args response) s h v = call_made-Keeps p btoa _ response s v
  turn-Keeps (subscribes event callback) s h v = ground (
    arith,
    now_or_later-pending p (subscribe_waits (make_evt_message event 0) event callback s.promises)
        (record s { promises = suc s.promises }) tt,
  )
  turn-Keeps (unsubscribes event) s h v = ground (
    arith,
    now_or_later-pending p (unsubscribe_waits (make_evt_message event 1) event s.promises)
        (record s { promises = suc s.promises }) tt,
  )
  turn-Keeps waits s h v = ground (
    arith,
    now_or_later-pending p (ready_waits s.promises) (record s { promises = suc s.promises }) tt,
  )
  turn-Keeps (listens callback) s h v = omega arith
  turn-Keeps closes s h v = ground arith
  turn-Keeps opens s h v = omega (
    arith,
    count-append (waits_for p) s.resumed s.waiting_p,
    count-append (settles p) s.effects (map (λ c. notify c true) s.on_change),
    count-settles-notify p s.on_change true,
  )
  turn-Keeps (receives m) s h v = onmessage-Keeps p m s v
  turn-Keeps disconnects s h v = absurd (h refl)
  turn-Keeps rings s h v = omega arith
  turn-Keeps resumes s h v = resume_next-Keeps p s.resumed s v refl

  -- A disconnection settles nothing, and nothing is pending after it.
  disconnects_lem :
      (s : Socket)
      → s.resumed ≡ []
      → (pending p (turn btoa disconnects s) ≡ 0)
        × (settled p (turn btoa disconnects s) ≡ settled p s)
        × ((turn btoa disconnects s).promises ≡ s.promises)
  unfolding turn onclose
  disconnects_lem s idle = (
    omega (arith, ap (count (waits_for p)) idle),
    omega (
      arith,
      count-append (settles p) s.effects (map (λ c. notify c false) s.on_change),
      count-settles-notify p s.on_change false,
    ),
    refl,
  )

  turn-le :
      (t : Turn) (s : Socket)
      → Enabled t s
      → HasUniqueIds s
      → pending p (turn btoa t s) + settled p (turn btoa t s) + issued p s.promises
        ≤ pending p s + settled p s + issued p (turn btoa t s).promises
  turn-le disconnects s (idle, up) v =
      let (a, b, c) = disconnects_lem s idle in omega (arith, ap (issued p) c)
  turn-le t s enabled v = omega (arith, turn-Keeps t s (λ e. cc) v)

  run-le :
      {s u : Socket}
      → HasUniqueIds s
      → Reach btoa s u
      → HasUniqueIds u
        × (pending p u + settled p u + issued p s.promises
            ≤ pending p s + settled p s + issued p u.promises)
  run-le v here = (v, omega arith)
  run-le v (next {u} r t enabled) =
      let (v', h) = run-le v r in
      (turn-HasUniqueIds btoa t enabled v', omega (arith, turn-le t u enabled v'))

  -- In every state that a new connection reaches, a promise is settled at most once, not at all
  -- before it is made or while it is still pending.
  pub settled_once :
      {s : Socket} → Reach btoa new_socket s → pending p s + settled p s ≤ issued p s.promises
  settled_once r = omega (arith, (run-le (Reach-HasUniqueIds btoa here) r).1)

  -- A run in which the connection is never lost.
  abbrev pub StaysUp : {s u : Socket} → Reach btoa s u → Type 0
  StaysUp here = Unit
  StaysUp (next r t enabled) = StaysUp r × (t ≢ disconnects)

  run-Keeps : {s u : Socket} → HasUniqueIds s → (r : Reach btoa s u) → StaysUp r → Keeps p s u
  run-Keeps v here h = refl
  run-Keeps v (next {u} r t enabled) (h, stays) =
      omega (arith, run-Keeps v r h, turn-Keeps t u stays (run-le v r).0)

  -- As long as the connection is not lost, each promise that has been made is either pending in one
  -- place or settled once.
  pub none_lost :
      {s : Socket} (r : Reach btoa new_socket s)
      → StaysUp r
      → pending p s + settled p s ≡ issued p s.promises
  none_lost r h = omega (arith, run-Keeps (Reach-HasUniqueIds btoa here) r h, issued_zero p)

  -- A promise that is pending when the connection of a new socket's run is lost, with no continuation
  -- left to resume, is never settled, in whatever follows.
  pub pending_stranded :
      {s u : Socket}
      → Reach btoa new_socket s
      → 0 < pending p s
      → Enabled disconnects s
      → Reach btoa (turn btoa disconnects s) u
      → settled p u ≡ 0
  pending_stranded {s} {u} r waiting enabled after =
      let v = Reach-HasUniqueIds btoa r in
      let (none_left, same, promises) = disconnects_lem s enabled.0 in
      let (_, h) = run-le (turn-HasUniqueIds btoa disconnects enabled v) after in
      ground (arith, settled_once r, none_left, same, promises, h)
