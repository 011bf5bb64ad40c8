-- ===== src/Socket/Promises.antt =====
-- websocket.ts: what the methods and onmessage do to the promises that are pending and settled.
use mulex_fk.Prelude.{
  ℕ, suc, ◌+◌, ◌≡◌, refl, ap, Option, none, some, List, [], ◌∷◌, ◌++◌, arith, count, count-append,
  if◌then◌else◌,
}
use Prim.Native.String.{String}
use mulex_fk.Prelude.Keys.{number_key, string_key}
use mulex_fk.Prelude.Results.{Result, ok, throw}
use mulex_fk.Stores.Maps.{get}
use mulex_fk.Convert.Names.{Intype}
use mulex_fk.Socket.State.{
  Callback, PromiseId, Message, Deferred, Waiter, call_waits, subscribe_waits, unsubscribe_waits,
  ready_waits, send, resolve, resolve_void, reject, deliver, Socket,
}
use mulex_fk.Socket.Handlers.{
  resume, onmessage, Incoming, rpc_reply, evt_frame, unknown, now_or_later, settle, deliver_to,
  call_made, no_data, answer,
}
use mulex_fk.Socket.Counting.{
  keyed, waits_for, waits_with_id, settles, pending, settled, issued, count-answers-put,
  count-answers-delete,
}
use mulex_fk.Socket.Ids.{HasUniqueIds}
use mulex_fk.Socket.Runs.{resume_next}

-- A call that is about to be sent finds its id unused.
abbrev pub IsFresh : Waiter → Socket → Type 0
IsFresh (call_waits m id d) s = count (keyed id) s.deferred_p ≡ 0
IsFresh _ s = Unit

-- A step that loses no promise and makes none twice.
abbrev pub Keeps : PromiseId → Socket → Socket → Type 0
Keeps p s u =
    pending p u + settled p u + issued p s.promises
    ≡ pending p s + settled p s + issued p u.promises

module _ (p : PromiseId) where
  resume-pending :
      (w : Waiter) (s : Socket)
      → IsFresh w s
      → (pending p (resume w s) + settled p (resume w s)
          ≡ pending p s + settled p s + (if waits_for p w then 1 else 0))
        × ((resume w s).promises ≡ s.promises)
  unfolding resume
  resume-pending (call_waits m id d) s h = ground (
    arith,
    count-answers-put p s.deferred_p id d,
    count-append (settles p) s.effects (send m ∷ []),
  )
  resume-pending (subscribe_waits m event callback q) s h = ground (
    arith,
    count-append (settles p) s.effects (send m ∷ []),
    count-append (settles p) s.effects (resolve q no_data ∷ []),
    count-append (settles p) (s.effects ++ (send m ∷ [])) (resolve q no_data ∷ []),
  )
  resume-pending (unsubscribe_waits m event q) s h = ground (
    arith,
    count-append (settles p) s.effects (send m ∷ []),
    count-append (settles p) s.effects (resolve q no_data ∷ []),
    count-append (settles p) (s.effects ++ (send m ∷ [])) (resolve q no_data ∷ []),
  )
  resume-pending (ready_waits q) s h =
      ground (arith, count-append (settles p) s.effects (resolve_void q ∷ []))

  pub now_or_later-pending :
      (w : Waiter) (s : Socket)
      → IsFresh w s
      → (pending p (now_or_later w s) + settled p (now_or_later w s)
          ≡ pending p s + settled p s + (if waits_for p w then 1 else 0))
        × ((now_or_later w s).promises ≡ s.promises)
  now_or_later-pending w s h =
      ground (arith, resume-pending w s h, count-append (waits_for p) s.waiting_p (w ∷ []))

  pub call_made-Keeps :
      (btoa : List ℕ → String) (r : Result Message) (response : Intype) (s : Socket)
      → HasUniqueIds s
      → Keeps p s (call_made btoa r response s)
  call_made-Keeps btoa (throw e) _ s v =
      ground (arith, count-append (settles p) s.effects (reject s.promises ∷ []))
  call_made-Keeps btoa (ok m) response s v =
      let w = call_waits m s.messageid (record { promise = s.promises; response = response }) in
      let fresh : count (keyed s.messageid) s.deferred_p ≡ 0 =
        ground (arith, v.unique s.messageid) in
      ground (
        arith,
        now_or_later-pending w (record s { promises = suc s.promises; messageid = suc s.messageid })
            fresh,
      )

  pub onmessage-Keeps : (m : Incoming) (s : Socket) → HasUniqueIds s → Keeps p s (onmessage m s)
  unfolding onmessage
  onmessage-Keeps (rpc_reply good id response) s v = go (get s.deferred_p id) refl
    where
      go : (o : Option Deferred) → get s.deferred_p id ≡ o → Keeps p s (settle good id response o s)
      go none e = omega arith
      go (some d) e = ground (
        arith,
        v.unique id,
        count-answers-delete p s.deferred_p id d,
        count-append (settles p) s.effects (answer good response d ∷ []),
      )
  onmessage-Keeps (evt_frame event response) s v = go (get s.event_subscriptions event)
    where
      go : (o : Option (Option Callback)) → Keeps p s (deliver_to o response s)
      go none = omega arith
      go (some none) = omega arith
      go (some (some c)) =
          omega (arith, count-append (settles p) s.effects (deliver c response ∷ []))
  onmessage-Keeps unknown s v = omega arith

  IsFresh-of_resumed :
      (w : Waiter) (ws : List Waiter) (s : Socket)
      → HasUniqueIds s
      → s.resumed ≡ w ∷ ws
      → IsFresh w (record s { resumed = ws })
  IsFresh-of_resumed (call_waits m id d) ws s v e =
      ground (arith, v.unique id, ap (count (waits_with_id id)) e)
  IsFresh-of_resumed (subscribe_waits m event callback q) ws s v e = tt
  IsFresh-of_resumed (unsubscribe_waits m event q) ws s v e = tt
  IsFresh-of_resumed (ready_waits q) ws s v e = tt

  pub resume_next-Keeps :
      (ws : List Waiter) (s : Socket)
      → HasUniqueIds s
      → s.resumed ≡ ws
      → Keeps p s (resume_next ws s)
  unfolding resume_next
  resume_next-Keeps [] s v e = omega arith
  resume_next-Keeps (w ∷ ws) s v e = ground (
    arith,
    resume-pending w (record s { resumed = ws }) (IsFresh-of_resumed w ws s v e),
    ap (count (waits_for p)) e,
  )
