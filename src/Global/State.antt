-- ===== src/Global/State.antt =====
-- globalstate.ts: the signals and stores.
use mulex_fk.Prelude.{ℕ, ◌==◌, if◌then◌else◌, Bool, true, false, Option, none, List}
use mulex_fk.Prelude.Int.{pos}
use mulex_fk.Prelude.Keys.{number_key, list_key}
use mulex_fk.Prelude.Literals.{units}
use mulex_fk.Convert.Engine.{Engine, Text, Number, int, real}
use mulex_fk.Convert.Decode.{Output, null, number, numbers, bigint, text, texts, boolean, booleans}
use mulex_fk.Stores.Maps

-- A field that is `none` is undefined: the callbacks may set a part of a backend that is not there yet.
pub record BackendStatus (F : Type 0) : Type 0 where
  pub name : Option (Output F)
  pub host : Option (Output F)
  pub connected : Option (Output F)
  pub evt_upload_speed : Option (Output F)
  pub evt_download_speed : Option (Output F)
  pub uptime : Option (Number F)
  pub user_status : Option (Output F)
  pub user_color : Option (Output F)

-- What the store has for a backend: an instance of the class, which create_client_status makes, or an
-- object literal. solid-js tells the two apart.
pub data Backend (F : Type 0) : Type 0 where
  instantiated plain : BackendStatus F → Backend F

pub record Globals (F : Type 0) : Type 0 where
  pub backends : List (Text × Backend F)
  pub logged_user_role : Text × Number F
  pub expname : Output F
  pub socket_status : Bool
  pub run_status : Text
  pub run_number : Output F
  pub run_timestamp : Number F

abbrev pub blank : {F : Type 0} → BackendStatus F
blank = record {
  name = none;
  host = none;
  connected = none;
  evt_upload_speed = none;
  evt_download_speed = none;
  uptime = none;
  user_status = none;
  user_color = none;
}

-- `setBackends(cid, value)`. What the setter of solid-js makes of a property that it is given a value
-- for, merging or replacing, is `assign`.
abbrev pub set_backends :
    {F : Type 0}
    → (assign : Option (Backend F) → Backend F → Backend F) → Text
    → Backend F
    → Globals F
    → Globals F
set_backends assign cid value s = record s {
  backends = Maps.put s.backends cid (assign (Maps.get s.backends cid) value);
}

-- `setBackends(produce(b => { delete b[cid]; }))`
abbrev pub delete_backend : {F : Type 0} → Text → Globals F → Globals F
delete_backend cid s = record s { backends = Maps.delete s.backends cid }

-- The switch of setRunStatusFromCode; on any other code the status stays.
abbrev pub status_of : ℕ → Text → Text
status_of code old =
    if code == 0
    then units "Stopped"
    else if code == 1
    then units "Running"
    else if code == 2
    then units "Starting"
    else if code == 3
    then units "Stopping"
    else old

unfoldable pub status_from_code : {F : Type 0} → Output F → Text → Text
status_from_code (number (int (pos code))) old = status_of code old
status_from_code _ old = old

module _ (E : Engine) where
  open E use {Float, nan, text_number, bigint_number}

  -- `Number(x)`; the arrays of astype have several elements, so theirs is NaN.
  abbrev pub to_number : Output Float → Number Float
  to_number null = int (pos 0)
  to_number (number n) = n
  to_number (numbers ns) = real nan
  to_number (bigint z) = bigint_number z
  to_number (text t) = text_number t
  to_number (texts ts) = real nan
  to_number (boolean true) = int (pos 1)
  to_number (boolean false) = int (pos 0)
  to_number (booleans bs) = real nan
