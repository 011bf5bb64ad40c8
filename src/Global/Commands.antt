-- ===== src/Global/Commands.antt =====
-- BackendViewer.tsx: the commands to the backends.
use mulex_fk.Prelude.{ℕ, Bool, true, false, Option, none, List, [], ◌∷◌, ◌++◌, get_elem?}
use mulex_fk.Prelude.Int.{ℤ, pos}
use mulex_fk.Prelude.Keys.{number_key, ◌==◌}
use mulex_fk.Convert.Names.{native, no_response, uint8}
use mulex_fk.Convert.Engine.{Engine, int}
use mulex_fk.Convert.Decode.{Output, number, astype}
use mulex_fk.Convert.Shorthands
use mulex_fk.Calls.Jobs.{Job, done, await, launch, modify, attempt, rpc, ◌>>=◌}

pub data RexError : Type 0 where
  backend_start_ok backend_start_failed backend_stop_ok backend_stop_failed : RexError
  no_such_backend no_such_host no_such_command command_tx_error command_tx_timeout : RexError

abbrev pub errors : List RexError
errors =
    backend_start_ok
    ∷ (backend_start_failed
        ∷ (backend_stop_ok
            ∷ (backend_stop_failed
                ∷ (no_such_backend
                    ∷ (no_such_host
                        ∷ (no_such_command ∷ (command_tx_error ∷ (command_tx_timeout ∷ []))))))))

-- get_error; no entry is undefined.
abbrev pub get_error : {F : Type 0} → Output F → Option RexError
get_error (number (int (pos code))) = get_elem? errors code
get_error _ = none

-- A toast of a failure; what was to be done, and the error.
pub data Toast : Type 0 where
  start_failed stop_failed : Option RexError → Toast

-- `r == code`, on what astype gives for a byte.
abbrev pub is_code : {F : Type 0} → ℕ → Output F → Bool
is_code code (number (int (pos n))) = n == code
is_code code _ = false

module _ (E : Engine) where
  open E use {Float}

  abbrev toast_unless : Bool → Toast → Job (List Toast) (Unit {0})
  toast_unless true t = done tt
  toast_unless false t = modify (λ ts. ts ++ (t ∷ []))

  unfoldable pub start_backend : ℤ → Job (List Toast) (Unit {0})
  start_backend cid = do
    id ← attempt (Shorthands.uint64 E cid native)
    res ← await "mulex::RexSendStartCommand" (id ∷ []) native
    r ← attempt (astype E res uint8)
    toast_unless (is_code 0 r) (start_failed (get_error r))

  unfoldable pub stop_backend : ℤ → Job (List Toast) (Unit {0})
  stop_backend cid = do
    id ← attempt (Shorthands.uint64 E cid native)
    res ← await "mulex::RexSendStopCommand" (id ∷ []) native
    r ← attempt (astype E res uint8)
    toast_unless (is_code 2 r) (stop_failed (get_error r))

  unfoldable pub delete_backend : ℤ → Job (List Toast) (Unit {0})
  delete_backend cid = do
    id ← attempt (Shorthands.uint64 E cid native)
    launch (rpc "mulex::BckDeleteMeta" (id ∷ []) no_response)
