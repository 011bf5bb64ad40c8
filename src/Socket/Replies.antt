-- ===== src/Socket/Replies.antt =====
-- websocket.ts: what a reply does to the call that it answers.
use mulex_fk.Prelude.{
  ℕ, ◌≡◌, refl, ap, Bool, true, false, Option, none, some, List, [], ◌∷◌, ◌++◌, arith,
  if◌then◌else◌,
}
use Prim.Native.String.{String}
use mulex_fk.Prelude.Keys.{number_key, string_key}
use mulex_fk.Prelude.Results.{ok}
use mulex_fk.Stores.Maps.{get, put, delete}
use mulex_fk.Convert.Names.{Intype}
use mulex_fk.Convert.Bytes.{whole}
use mulex_fk.Convert.Encode.{MxGenericType, from_data}
use mulex_fk.Socket.State.{opened, PromiseId, Message, Deferred, send, resolve, reject, Socket}
use mulex_fk.Socket.Messages.{make_rpc_message}
use mulex_fk.Socket.Handlers.{
  resume, rpc_call, onmessage, rpc_reply, settle, answer, wants_response,
}

get-delete_self : (m : List (ℕ × Deferred)) (k : ℕ) → get (delete m k) k ≡ none
unfolding get delete
get-delete_self [] k = refl
get-delete_self ((i, x) ∷ m) k = ground (arith, get-delete_self m k)

get-put_self : (m : List (ℕ × Deferred)) (k : ℕ) (d : Deferred) → get (put m k d) k ≡ some d
unfolding get put
get-put_self [] k d = ground arith
get-put_self ((i, x) ∷ m) k d = ground (arith, get-put_self m k d)

-- A reply is taken once: the same id a second time changes nothing, whatever it brings.
pub onmessage_twice :
    (good again : Bool) (id : ℕ) (response more : List ℕ) (s : Socket)
    → onmessage (rpc_reply again id more) (onmessage (rpc_reply good id response) s)
      ≡ onmessage (rpc_reply good id response) s
unfolding onmessage
onmessage_twice good again id response more s = go (get s.deferred_p id) refl
  where
    go :
        (o : Option Deferred)
        → get s.deferred_p id ≡ o
        → settle again id more
            (get (settle good id response o s).deferred_p id)
            (settle good id response o s)
          ≡ settle good id response o s
    go none e = rw e
    go (some d) e = rw (get-delete_self s.deferred_p id)

answer_lem :
    (good : Bool) (bytes : List ℕ) (p : PromiseId) (intype : Intype)
    → answer good bytes (record { promise = p; response = intype })
      ≡ (if good then resolve p (from_data (whole bytes) intype) else reject p)
answer_lem true bytes p intype = refl
answer_lem false bytes p intype = refl

module _ (btoa : List ℕ → String) where
  -- On a connection that is up, a call sends its message at once, and the reply to the id of that
  -- message settles the promise of that call: with the reply's bytes if the status is OK, and by
  -- rejecting it if not.
  pub onmessage-rpc_call :
      (method : String) (args : List MxGenericType) (response : Intype) (s : Socket) (m : Message)
      (good : Bool) (bytes : List ℕ)
      → s.isready ≡ true
      → s.ready_state ≡ opened
      → make_rpc_message btoa s.messageid method args (wants_response response) ≡ ok m
      → (onmessage
          (rpc_reply good s.messageid bytes)
          (rpc_call btoa method args response s)).effects
        ≡ (s.effects ++ (send m ∷ []))
          ++ ((if good
                then resolve s.promises (from_data (whole bytes) response)
                else reject s.promises)
              ∷ [])
  unfolding onmessage rpc_call resume
  onmessage-rpc_call method args intype s m good bytes ready up made =
      rw (made, ready, up, get-put_self s.deferred_p s.messageid _)
        (ap (λ x. (s.effects ++ (send m ∷ [])) ++ (x ∷ []))
          (answer_lem good bytes s.promises intype))
