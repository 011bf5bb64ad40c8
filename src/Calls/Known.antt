-- ===== src/Calls/Known.antt =====
-- Runs of async functions where it is known what a step gives.
use mulex_fk.Prelude.{◌≡◌, refl, ap, List, []}
use Prim.Native.String.{String}
use mulex_fk.Prelude.Results.{Result, ok, throw}
use mulex_fk.Convert.Names.{Intype}
use mulex_fk.Convert.Encode.{MxGenericType}
use mulex_fk.Calls.Jobs.{Job, rpc, await, attempt, ◌>>=◌}
use mulex_fk.Calls.Servers.{Server, run, after_request, refused}

module _ (server : Server) {S A : Type 0} where
  open server use {State, reply}

  -- Code that does not throw.
  pub run-attempt :
      {B : Type 0} (r : Result B) (b : B) (f : B → Job S A) (s : S) (w : State)
      → r ≡ ok b
      → run server (attempt r >>= f) s w ≡ run server (f b) s w
  unfolding run
  run-attempt r b f s w e = ap (λ x. run server (attempt x >>= f) s w) e

  -- A call that is answered.
  pub run-await :
      (method : String) (args : List MxGenericType) (response : Intype) (x : MxGenericType)
      (f : MxGenericType → Job S A) (s : S) (w : State)
      → (reply w (rpc method args response)).0 ≡ ok x
      → run server (await method args response >>= f) s w
        ≡ after_request
            (rpc method args response)
            (run server (f x) s (reply w (rpc method args response)).1)
  unfolding run
  run-await method args response x f s w e =
      ap
        (λ (r : Result MxGenericType).
          after_request {W = State} {S = S} {A = A} (rpc method args response) (elim r [
            | ok y ↦ run server (f y) s (reply w (rpc method args response)).1
            | throw err ↦ refused err s (reply w (rpc method args response)).1
          ]))
        e

-- Code at the end of a function, whether or not it throws.
pub run-attempt_end :
    (server : Server) {S A : Type 0} (r : Result A) (s : S) (w : server.State)
    → run server (attempt r) s w ≡ record { result = r; state = s; world = w; sent = [] }
unfolding run
run-attempt_end server (ok a) s w = refl
run-attempt_end server (throw e) s w = refl
