-- ===== src/Calls/Invariants.antt =====
-- What every async function of some state keeps, put together from its parts.
use mulex_fk.Prelude.{List}
use Prim.Native.String.{String}
use mulex_fk.Prelude.Results.{Error, Result, ok, throw}
use mulex_fk.Convert.Names.{Intype}
use mulex_fk.Convert.Encode.{MxGenericType}
use mulex_fk.Calls.Jobs.{
  Job, Request, rpc, done, throws, await, launch, attempt, modify, get, ◌>>=◌,
}
use mulex_fk.Calls.Servers.{Server, Outcome, run, run-bind, after_request, and_then, refused}

module _ (server : Server) {S : Type 0} (Q : S → Type 0) where
  open server use {State, reply}

  -- Run alone against the server, it leaves a state with the property if it starts in one.
  unfoldable pub Keeps : {A : Type 0} → Job S A → Type 0
  Keeps m = (s : S) (w : State) → Q s → Q (run server m s w).state

  pub done-Keeps : {A : Type 0} (a : A) → Keeps (done a)
  unfolding Keeps run
  done-Keeps a s w q = q

  pub throws-Keeps : (A : Type 0) (e : Error) → Keeps {A = A} (throws e)
  unfolding Keeps run
  throws-Keeps A e s w q = q

  pub attempt-Keeps : {A : Type 0} (r : Result A) → Keeps (attempt r)
  unfolding Keeps run
  attempt-Keeps (ok a) s w q = q
  attempt-Keeps (throw e) s w q = q

  pub await-Keeps :
      (method : String) (args : List MxGenericType) (response : Intype)
      → Keeps (await method args response)
  unfolding Keeps run
  await-Keeps method args response s w q = go (reply w (rpc method args response)).0
    where
      go :
          (r : Result MxGenericType)
          → Q
              (after_request {W = State} {S = S} {A = MxGenericType}
                (rpc method args response)
                (elim r [
                  | ok x ↦ run server (done x) s (reply w (rpc method args response)).1
                  | throw e ↦ refused e s (reply w (rpc method args response)).1
                ])).state
      go (ok x) = q
      go (throw e) = q

  pub launch-Keeps : (request : Request) → Keeps (launch request)
  unfolding Keeps run
  launch-Keeps request s w q = q

  pub modify-Keeps : (f : S → S) → ((s : S) → Q s → Q (f s)) → Keeps (modify f)
  unfolding Keeps run
  modify-Keeps f h s w q = h s q

  pub bind-Keeps :
      {A B : Type 0} (m : Job S A) (f : A → Job S B)
      → Keeps m
      → ((a : A) → Keeps (f a))
      → Keeps (m >>= f)
  unfolding Keeps
  bind-Keeps {A} {B} m f h hf s w q =
      rw (run-bind server m f s w) (go (run server m s w) (run server m s w).result (h s w q))
    where
      go :
          (o : Outcome State S A) (r : Result A)
          → Q o.state
          → Q (and_then server (record o { result = r }) f).state
      go o (ok a) q' = hf a o.state o.world q'
      go o (throw e) q' = q'

  -- Code that looks at the state first.
  pub look-Keeps :
      {A : Type 0} (k : S → Job S A)
      → ((seen : S) → Q seen → (w : State) → Q (run server (k seen) seen w).state)
      → Keeps (get >>= k)
  unfolding Keeps run
  look-Keeps k h s w q = h s q w

-- The parts of an async function, for `search`.
pub ruleset keeps =
    (done-Keeps, throws-Keeps, attempt-Keeps, await-Keeps, launch-Keeps, modify-Keeps, bind-Keeps)
