-- ===== src/Calls/Keeping.antt =====
-- What holds of the state that a run leaves, step by step.
use mulex_fk.Prelude.{List}
use Prim.Native.String.{String}
use mulex_fk.Prelude.Results.{Result, ok, throw}
use mulex_fk.Convert.Names.{Intype}
use mulex_fk.Convert.Encode.{MxGenericType}
use mulex_fk.Calls.Jobs.{Job, await, attempt, rpc, ◌>>=◌}
use mulex_fk.Calls.Servers.{Server, run, after_request, refused}

module _ (server : Server) {S A : Type 0} (Q : S → Type 0) where
  open server use {State, reply}

  pub attempt-keeps :
      {B : Type 0} (r : Result B) (f : B → Job S A) (s : S) (w : State)
      → Q s
      → ((b : B) → Q (run server (f b) s w).state)
      → Q (run server (attempt r >>= f) s w).state
  unfolding run
  attempt-keeps (ok b) f s w q next = next b
  attempt-keeps (throw e) f s w q next = q

  pub await-keeps :
      (method : String) (args : List MxGenericType) (response : Intype)
      (f : MxGenericType → Job S A) (s : S) (w : State)
      → Q s
      → ((r : MxGenericType) (w' : State) → Q (run server (f r) s w').state)
      → Q (run server (await method args response >>= f) s w).state
  unfolding run
  await-keeps method args response f s w q next = go (reply w (rpc method args response)).0
    where
      go :
          (r : Result MxGenericType)
          → Q
              (after_request {W = State} {S = S} {A = A} (rpc method args response) (elim r [
                | ok x ↦ run server (f x) s (reply w (rpc method args response)).1
                | throw e ↦ refused e s (reply w (rpc method args response)).1
              ])).state
      go (ok x) = next x (reply w (rpc method args response)).1
      go (throw e) = q
