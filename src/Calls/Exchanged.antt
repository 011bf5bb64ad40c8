-- ===== src/Calls/Exchanged.antt =====
-- One call over the connection: its promise is settled by its own reply, and the connection stays up.
use mulex_fk.Prelude.{
  ℕ, suc, ◌≡◌, refl, ap, ◌∙◌, true, false, Option, none, some, List, [], ◌∷◌, ◌++◌, All, All-append,
  append_assoc, arith, ◌==◌,
}
use Prim.Native.String.{String}
use mulex_fk.Prelude.Keys.{number_key, string_key}
use mulex_fk.Prelude.Results.{Error, ok}
use mulex_fk.Stores.MapLaws.{get-put_self}
use mulex_fk.Convert.Names.{Intype}
use mulex_fk.Convert.Bytes.{whole}
use mulex_fk.Convert.Encode.{MxGenericType, from_data}
use mulex_fk.Socket.State.{
  opened, PromiseId, Message, Effect, send, resolve, resolve_void, reject, notify, deliver, Socket,
}
use mulex_fk.Socket.Messages.{make_rpc_message}
use mulex_fk.Socket.Handlers.{resume, rpc_call, onmessage, wants_response}
use mulex_fk.Socket.Replies.{onmessage-rpc_call}
use mulex_fk.Calls.OverSocket.{Replies, settled, reply_with, reply_of, IsEarlier, IsUp}

settled-fresh :
    (rejection : Error) (p : PromiseId) (effects more : List Effect)
    → All (IsEarlier p) effects
    → settled rejection p (effects ++ more) ≡ settled rejection p more
unfolding settled
settled-fresh rejection p [] more h = refl
settled-fresh rejection p (resolve q x ∷ effects) more (h, hs) =
    let apart : (q == p) ≡ false = ground arith in
    rw apart (settled-fresh rejection p effects more hs)
settled-fresh rejection p (reject q ∷ effects) more (h, hs) =
    let apart : (q == p) ≡ false = ground arith in
    rw apart (settled-fresh rejection p effects more hs)
settled-fresh rejection p (send m ∷ effects) more (h, hs) =
    settled-fresh rejection p effects more hs
settled-fresh rejection p (resolve_void q ∷ effects) more (h, hs) =
    settled-fresh rejection p effects more hs
settled-fresh rejection p (notify c b ∷ effects) more (h, hs) =
    settled-fresh rejection p effects more hs
settled-fresh rejection p (deliver c f ∷ effects) more (h, hs) =
    settled-fresh rejection p effects more hs

later :
    (n : ℕ) (effects : List Effect) → All (IsEarlier n) effects → All (IsEarlier (suc n)) effects
later n [] h = tt
later n (resolve q x ∷ effects) (h, hs) = (omega arith, later n effects hs)
later n (reject q ∷ effects) (h, hs) = (omega arith, later n effects hs)
later n (send m ∷ effects) (h, hs) = (tt, later n effects hs)
later n (resolve_void q ∷ effects) (h, hs) = (tt, later n effects hs)
later n (notify c b ∷ effects) (h, hs) = (tt, later n effects hs)
later n (deliver c f ∷ effects) (h, hs) = (tt, later n effects hs)

module _ (btoa : List ℕ → String) (rejection : Error) (replies : Replies) where
  open replies use {State, bytes}

  module _ (method : String) (args : List MxGenericType) (response : Intype) (k : Socket)
      (v : IsUp k) (m : Message)
      (made : make_rpc_message btoa k.messageid method args (wants_response response) ≡ ok m) where
    abbrev ending : Option (List ℕ) → Effect
    ending none = reject k.promises
    ending (some bs) = resolve k.promises (from_data (whole bs) response)

    abbrev pub after : Option (List ℕ) → Socket
    after r = reply_with btoa rejection replies r k.messageid (rpc_call btoa method args response k)

    after-effects :
        (r : Option (List ℕ)) → (after r).effects ≡ (k.effects ++ (send m ∷ [])) ++ (ending r ∷ [])
    after-effects none = onmessage-rpc_call btoa method args response k m false [] v.ready v.up made
    after-effects (some bs) =
        onmessage-rpc_call btoa method args response k m true bs v.ready v.up made

    pub after-counts :
        (r : Option (List ℕ))
        → ((after r).promises ≡ suc k.promises)
          × ((after r).messageid ≡ suc k.messageid)
          × ((after r).isready ≡ true)
          × ((after r).ready_state ≡ opened)
    unfolding onmessage rpc_call resume
    after-counts none =
        rw (made, v.ready, v.up, get-put_self k.deferred_p k.messageid _) (refl, refl, refl, refl)
    after-counts (some bs) =
        rw (made, v.ready, v.up, get-put_self k.deferred_p k.messageid _) (refl, refl, refl, refl)

    last-settled :
        (r : Option (List ℕ))
        → settled rejection k.promises (send m ∷ (ending r ∷ []))
          ≡ some (reply_of btoa rejection replies response r)
    unfolding settled
    last-settled none = let own : (k.promises == k.promises) ≡ true = ground arith in rw own refl
    last-settled (some bs) =
        let own : (k.promises == k.promises) ≡ true = ground arith in rw own refl

    -- The promise of the call is settled by its reply.
    pub after-settled :
        (r : Option (List ℕ))
        → settled rejection k.promises (after r).effects
          ≡ some (reply_of btoa rejection replies response r)
    after-settled r =
        ap (settled rejection k.promises)
          (after-effects r ∙ append_assoc k.effects (send m ∷ []) (ending r ∷ []))
        ∙ (settled-fresh rejection k.promises k.effects (send m ∷ (ending r ∷ [])) v.earlier
            ∙ last-settled r)

    ending_earlier : (r : Option (List ℕ)) → IsEarlier (suc k.promises) (ending r)
    ending_earlier none = omega arith
    ending_earlier (some bs) = omega arith

    pub after-IsUp : (r : Option (List ℕ)) → IsUp (after r)
    after-IsUp r =
        let (count, ids, is_ready, is_up) = after-counts r in
        let sent : All (IsEarlier (suc k.promises)) (k.effects ++ (send m ∷ [])) =
          All-append (IsEarlier (suc k.promises)) k.effects (send m ∷ [])
            (later k.promises k.effects v.earlier) (tt, tt) in
        record {
          ready = is_ready;
          up = is_up;
          earlier =
              rw (count, after-effects r)
                (All-append (IsEarlier (suc k.promises)) (k.effects ++ (send m ∷ [])) _ sent
                  (ending_earlier r, tt));
        }
