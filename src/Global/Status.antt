-- ===== src/Global/Status.antt =====
-- globalstate.ts: the user's role, the experiment's name and the run.
use mulex_fk.Prelude.{Bool, [], ◌∷◌}
use mulex_fk.Prelude.Literals.{units}
use mulex_fk.Prelude.Results.{Result, ok, throw, type_error}
use mulex_fk.Convert.Names.{native, generic, uint8, uint64, int64, int32, str512, string}
use mulex_fk.Convert.Engine.{Engine, Text, Number}
use mulex_fk.Convert.Encode
use mulex_fk.Convert.Encode.{MxGenericType}
use mulex_fk.Convert.Decode.{number, astype}
use mulex_fk.Convert.Unpack
use mulex_fk.Convert.Unpack.{Unpacked, unpack, rows}
use mulex_fk.Calls.Jobs.{Job, await, modify, attempt, ◌>>=◌}
use mulex_fk.Global.State.{Globals, status_from_code, to_number}
use mulex_fk.Prelude.{length, ◌+◌}

module _ (E : Engine) where
  open E use {Float}

  -- `const [id, name] = role.unpack(['int32', 'str512'])[0]`; what is no such row has no first row, or
  -- is null, and throws.
  abbrev pub role_of : Unpacked Float → Result (Text × Number Float)
  role_of (rows ((Unpack.number id ∷ Unpack.text name ∷ []) ∷ rest)) = ok (name, id)
  role_of _ = throw type_error

  unfoldable pub fetch_client_role : Job (Globals Float) (Unit {0})
  fetch_client_role = do
    role ← await "mulex::PdbUserGetCurrentRole" [] generic
    name_id ← attempt (role_of (unpack E (length role.bytes.buffer + 1) role (int32 ∷ str512 ∷ [])))
    modify (λ s. record s { logged_user_role = name_id })

  unfoldable pub fetch_experiment_name : Job (Globals Float) (Unit {0})
  fetch_experiment_name = do
    name ← await "mulex::SysGetExperimentName" [] native
    expname ← attempt (astype E name string)
    modify (λ s. record s { expname = expname })

  -- The callback of '/system/run/status'; what it shows is no part of the state.
  unfoldable pub on_run_status : MxGenericType → Job (Globals Float) (Unit {0})
  on_run_status value = do
    code ← attempt (astype E value uint8)
    modify (λ s. record s { run_status = status_from_code code s.run_status })

  -- The callback of '/system/run/number': a bigint is kept as one.
  unfoldable pub on_run_number : MxGenericType → Job (Globals Float) (Unit {0})
  on_run_number value = do
    n ← attempt (astype E value uint64)
    modify (λ s. record s { run_number = n })

  unfoldable pub on_run_timestamp : MxGenericType → Job (Globals Float) (Unit {0})
  on_run_timestamp value = do
    t ← attempt (astype E value int64)
    modify (λ s. record s { run_timestamp = to_number E t })

  unfoldable pub on_connection : Bool → Job (Globals Float) (Unit {0})
  on_connection conn = modify (λ s. record s { socket_status = conn })

  -- The three reads at the end of init_run_status, each of its own.
  unfoldable pub init_status : Job (Globals Float) (Unit {0})
  init_status = do
    entry ← attempt (Encode.str512 E (units "/system/run/status") native)
    res ← await "mulex::RdbReadValueDirect" (entry ∷ []) generic
    rstatus ← attempt (astype E res uint8)
    modify (λ s. record s { run_status = status_from_code rstatus s.run_status })

  unfoldable pub init_number : Job (Globals Float) (Unit {0})
  init_number = do
    entry ← attempt (Encode.str512 E (units "/system/run/number") native)
    res ← await "mulex::RdbReadValueDirect" (entry ∷ []) generic
    rnumber ← attempt (astype E res uint64)
    modify (λ s. record s { run_number = number (to_number E rnumber) })

  unfoldable pub init_timestamp : Job (Globals Float) (Unit {0})
  init_timestamp = do
    entry ← attempt (Encode.str512 E (units "/system/run/timestamp") native)
    res ← await "mulex::RdbReadValueDirect" (entry ∷ []) generic
    rts ← attempt (astype E res int64)
    modify (λ s. record s { run_timestamp = to_number E rts })
