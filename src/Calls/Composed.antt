-- ===== src/Calls/Composed.antt =====
-- An async function over the connection comes to what it comes to against the server alone.
use mulex_fk.Prelude.{ℕ, suc, ◌+◌, ◌≡◌, refl, Option, none, some, List, length, arith}
use Prim.Native.String.{String}
use mulex_fk.Prelude.Keys.{number_key, string_key}
use mulex_fk.Prelude.Results.{Error, Result, ok, throw}
use mulex_fk.Convert.Encode.{MxGenericType}
use mulex_fk.Socket.State.{Socket}
use mulex_fk.Calls.Jobs.{
  Job, Request, rpc, subscribes, unsubscribes, done, throws, call, catching, start, look, write,
}
use mulex_fk.Calls.Servers.{Outcome, run, refused, after_request}
use mulex_fk.Calls.OverSocket.{Replies, settled, Ended, drive, reply_of, served, OnlyCalls, IsUp}
use mulex_fk.Calls.Exchanged.{after, after-counts, after-settled, after-IsUp}

module _ (btoa : List ℕ → String) (rejection : Error) (replies : Replies) where
  open replies use {State, bytes}

  -- The run over the connection ends as the run against the server does, with the connection up, and
  -- with one message for each request.
  abbrev Matches : {S A : Type 0} → ℕ → Option (Ended State S A) → Outcome State S A → Type 0
  Matches n ended o =
      (k' : Socket) × (ended
        ≡ some (record { result = o.result; state = o.state; world = o.world; socket = k' }))
      × IsUp k'
      × (k'.messageid ≡ n + length o.sent)

  abbrev Agrees : {S A : Type 0} → Job S A → S → State → Socket → Type 0
  Agrees job s w k =
      Matches k.messageid (drive btoa rejection replies job s w k)
        (run (served btoa rejection replies) job s w)

  after_one :
      {S A : Type 0} (q : Request) (n m : ℕ) (ended : Option (Ended State S A))
      (o : Outcome State S A)
      → m ≡ suc n
      → Matches m ended o
      → Matches n ended (after_request q o)
  after_one q n m ended o one (k', e, up, count) = (k', e, up, omega (arith, one, count))

  -- What follows a call that is awaited, by what its promise has come to.
  abbrev goes_on :
      {S A : Type 0}
      → (MxGenericType → Job S A)
      → S
      → State
      → Socket
      → Option (Result MxGenericType)
      → Option (Ended State S A)
  goes_on f s w k none = none
  goes_on f s w k (some (ok x)) = drive btoa rejection replies (f x) s w k
  goes_on f s w k (some (throw e)) =
      some (record { result = throw e; state = s; world = w; socket = k })

  goes_on-Matches :
      {S A : Type 0} (f : MxGenericType → Job S A) (s : S) (w : State) (k : Socket)
      (r : Result MxGenericType)
      → IsUp k
      → ((x : MxGenericType) → Agrees (f x) s w k)
      → Matches k.messageid (goes_on f s w k (some r)) (elim r [
        | ok x ↦ run (served btoa rejection replies) (f x) s w
        | throw e ↦ refused e s w
      ])
  goes_on-Matches f s w k (ok x) v ih = ih x
  goes_on-Matches f s w k (throw e) v ih = (k, refl, v, omega arith)

  goes_on-settled :
      {S A : Type 0} (f : MxGenericType → Job S A) (s : S) (w : State) (k : Socket)
      (promise : Option (Result MxGenericType)) (r : Result MxGenericType)
      → promise ≡ some r
      → IsUp k
      → ((x : MxGenericType) → Agrees (f x) s w k)
      → Matches k.messageid (goes_on f s w k promise) (elim r [
        | ok x ↦ run (served btoa rejection replies) (f x) s w
        | throw e ↦ refused e s w
      ])
  goes_on-settled f s w k promise r e v ih = rw e (goes_on-Matches f s w k r v ih)

  abbrev goes_over :
      {S A : Type 0}
      → (Result MxGenericType → Job S A)
      → S
      → State
      → Socket
      → Option (Result MxGenericType)
      → Option (Ended State S A)
  goes_over f s w k none = none
  goes_over f s w k (some r) = drive btoa rejection replies (f r) s w k

  goes_over-settled :
      {S A : Type 0} (f : Result MxGenericType → Job S A) (s : S) (w : State) (k : Socket)
      (promise : Option (Result MxGenericType)) (r : Result MxGenericType)
      → promise ≡ some r
      → Agrees (f r) s w k
      → Matches k.messageid
          (goes_over f s w k promise)
          (run (served btoa rejection replies) (f r) s w)
  goes_over-settled f s w k promise r e ih = rw e ih

  -- A function that makes calls alone, whose arguments can be laid out, started on a connection that is
  -- up, whose server answers every call before it turns to another: each await ends, with the reply or
  -- the rejection of its own call, so that the function gives the result and leaves the state and the
  -- server that it does when it is answered by the server directly. The connection stays up, and it has
  -- used one message id for each request.
  pub drive-run :
      {S A : Type 0} (job : Job S A) (s : S) (w : State) (k : Socket)
      → OnlyCalls btoa rejection replies job
      → IsUp k
      → let o = run (served btoa rejection replies) job s w in
        (k' : Socket) × (drive btoa rejection replies job s w k
          ≡ some (record { result = o.result; state = o.state; world = o.world; socket = k' }))
        × IsUp k'
        × (k'.messageid ≡ k.messageid + length o.sent)
  unfolding drive run
  drive-run (done a) s w k only v = (k, refl, v, omega arith)
  drive-run (throws e) s w k only v = (k, refl, v, omega arith)
  drive-run (look f) s w k only v = drive-run (f s) s w k (only s) v
  drive-run (write s' f) s w k only v = drive-run f s' w k only v
  drive-run (start (rpc method args intype) f) s w k (can, only) v =
      let (m, made) = can k.messageid in
      let (r, w') = bytes w method args intype in
      let k1 = after btoa rejection replies method args intype k v m made r in
      let (_, one, _, _) = after-counts btoa rejection replies method args intype k v m made r in
      after_one (rpc method args intype) k.messageid k1.messageid _ _ one (
        drive-run f s w' k1 only
          (after-IsUp btoa rejection replies method args intype k v m made r))
  drive-run (start (subscribes e) f) s w k only v = absurd only
  drive-run (start (unsubscribes e) f) s w k only v = absurd only
  drive-run (call (rpc method args intype) f) s w k (can, only) v =
      let (m, made) = can k.messageid in
      let r = (bytes w method args intype).0 in
      let w' = (bytes w method args intype).1 in
      let k1 = after btoa rejection replies method args intype k v m made r in
      let (_, one, _, _) = after-counts btoa rejection replies method args intype k v m made r in
      let up = after-IsUp btoa rejection replies method args intype k v m made r in
      after_one (rpc method args intype) k.messageid k1.messageid
        (goes_on f s w' k1 (settled rejection k.promises k1.effects)) _ one
        (goes_on-settled f s w' k1 (settled rejection k.promises k1.effects)
          (reply_of btoa rejection replies intype r)
          (after-settled btoa rejection replies method args intype k v m made r) up
          (λ x. drive-run (f x) s w' k1 (only x) up))
  drive-run (call (subscribes e) f) s w k only v = absurd only
  drive-run (call (unsubscribes e) f) s w k only v = absurd only
  drive-run (catching (rpc method args intype) f) s w k (can, only) v =
      let (m, made) = can k.messageid in
      let r = (bytes w method args intype).0 in
      let w' = (bytes w method args intype).1 in
      let k1 = after btoa rejection replies method args intype k v m made r in
      let (_, one, _, _) = after-counts btoa rejection replies method args intype k v m made r in
      let up = after-IsUp btoa rejection replies method args intype k v m made r in
      let reply = reply_of btoa rejection replies intype r in
      after_one (rpc method args intype) k.messageid k1.messageid
        (goes_over f s w' k1 (settled rejection k.promises k1.effects)) _ one
        (goes_over-settled f s w' k1 (settled rejection k.promises k1.effects) reply
          (after-settled btoa rejection replies method args intype k v m made r)
          (drive-run (f reply) s w' k1 (only reply) up))
  drive-run (catching (subscribes e) f) s w k only v = absurd only
  drive-run (catching (unsubscribes e) f) s w k only v = absurd only
