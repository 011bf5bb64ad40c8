-- ===== src/Calls/Jobs.antt =====
-- Async functions over MxWebsocket (frontend/src/lib/websocket.ts). What stands between two awaits
-- runs without a break; at an await any other code may run, and change the shared state.
use mulex_fk.Prelude.{Option, List}
use mulex_fk.Prelude.Results.{Error, Result, ok, throw}
use Prim.Native.String.{String}
use mulex_fk.Convert.Names.{Intype}
use mulex_fk.Convert.Engine.{Text}
use mulex_fk.Convert.Encode.{MxGenericType}

-- `MxWebsocket.instance.rpc_call(method, args, response)`, `subscribe(event, ...)` and
-- `unsubscribe(event)`. No event is `none`: astype gave no text.
pub data Request : Type 0 where
  rpc : (method : String) (args : List MxGenericType) (response : Intype) → Request
  subscribes unsubscribes : (event : Option Text) → Request

-- An async function that uses a state shared with others, and gives an `A`.
pub data Job (S A : Type 0) : Type 0 where
  done : A → Job S A
  throws : Error → Job S A
  -- awaits the reply
  call : Request → (MxGenericType → Job S A) → Job S A
  -- awaits the reply inside a `try`
  catching : Request → (Result MxGenericType → Job S A) → Job S A
  -- goes on without it
  start : Request → Job S A → Job S A
  look : (S → Job S A) → Job S A
  write : S → Job S A → Job S A

infixl 5 ◌>>=◌ ◌>>◌
abbrev pub ◌>>=◌ : {S A B : Type 0} → Job S A → (A → Job S B) → Job S B
done a >>= f = f a
throws e >>= f = throws e
call q k >>= f = call q (λ r. k r >>= f)
catching q k >>= f = catching q (λ r. k r >>= f)
start q k >>= f = start q (k >>= f)
look k >>= f = look (λ s. k s >>= f)
write s k >>= f = write s (k >>= f)

abbrev pub ◌>>◌ : {S A B : Type 0} → Job S A → Job S B → Job S B
m >> n = m >>= λ _. n

abbrev pub await : {S : Type 0} → String → List MxGenericType → Intype → Job S MxGenericType
await method args response = call (rpc method args response) (λ r. done r)

abbrev pub launch : {S : Type 0} → Request → Job S (Unit {0})
launch q = start q (done tt)

abbrev pub get : {S : Type 0} → Job S S
get = look (λ s. done s)

-- A change of the state, with no await in it.
abbrev pub modify : {S : Type 0} → (S → S) → Job S (Unit {0})
modify f = look (λ s. write (f s) (done tt))

-- Code that may throw.
abbrev pub attempt : {S A : Type 0} → Result A → Job S A
attempt (ok a) = done a
attempt (throw e) = throws e

-- `try { ... }`: what it gives, or the exception that its `catch` takes.
unfoldable pub caught : {S A : Type 0} → Job S A → Job S (Result A)
caught (done a) = done (ok a)
caught (throws e) = done (throw e)
caught (call q k) = catching q (λ r. elim r [ ok x ↦ caught (k x) | throw e ↦ done (throw e) ])
caught (catching q k) = catching q (λ r. caught (k r))
caught (start q k) = start q (caught k)
caught (look k) = look (λ s. caught (k s))
caught (write s k) = write s (caught k)
