-- ===== src/Global/Backends.antt =====
-- globalstate.ts: create_client_status, and what init_backend_status watches.
use mulex_fk.Prelude.{Option, some, [], ◌∷◌, ◌++◌, if◌then◌else◌, ◌&&◌}
use mulex_fk.Prelude.Int.{pos}
use mulex_fk.Prelude.Literals.{units}
use mulex_fk.Convert.Names.{native, generic, bool, int64, uint32, string}
use mulex_fk.Convert.Engine.{Engine, Text, int}
use mulex_fk.Convert.Encode.{MxGenericType, str512}
use mulex_fk.Convert.Decode.{Output, number, text, astype}
use mulex_fk.Calls.Jobs.{Job, done, await, modify, attempt, ◌>>=◌}
use mulex_fk.Utils.Texts.{backends_prefix, extract_backend_name, ends_with, starts_with}
use mulex_fk.Global.State.{
  BackendStatus, Backend, instantiated, plain, blank, Globals, set_backends, delete_backend,
  to_number,
}

-- `/system/backends/${cid}${rest}`
abbrev pub backend_key : Text → Text → Text
backend_key cid rest = backends_prefix ++ (cid ++ rest)

-- The callbacks of init_backend_status.
pub data Callback : Type 0 where
  connects names status_changes : Text → MxGenericType → Callback
  measures : Text → Callback

abbrev pub watched_key : Callback → Text
watched_key (connects key value) = key
watched_key (names key value) = key
watched_key (status_changes key value) = key
watched_key (measures key) = key

module _ (E : Engine) where
  open E use {Float}

  -- `RdbReadValueDirect` of a key, awaited.
  abbrev pub read_direct : Text → Job (Globals Float) MxGenericType
  read_direct key = do
    entry ← attempt (str512 E key native)
    await "mulex::RdbReadValueDirect" (entry ∷ []) generic

  unfoldable pub create_client_status : Text → Job (Globals Float) (BackendStatus Float)
  create_client_status clientid = do
    r1 ← read_direct (backend_key clientid (units "/name"))
    cname ← attempt (astype E r1 string)
    r2 ← read_direct (backend_key clientid (units "/host"))
    chost ← attempt (astype E r2 string)
    r3 ← read_direct (backend_key clientid (units "/connected"))
    cconn ← attempt (astype E r3 bool)
    r4 ← read_direct (backend_key clientid (units "/last_connect_time"))
    ctime ← attempt (astype E r4 int64)
    r5 ← read_direct (backend_key clientid (units "/user_status/text"))
    ustatus ← attempt (astype E r5 string)
    r6 ← read_direct (backend_key clientid (units "/user_status/color"))
    ucolor ← attempt (astype E r6 string)
    done (record {
      name = some cname;
      host = some chost;
      connected = some cconn;
      evt_upload_speed = some (number (int (pos 0)));
      evt_download_speed = some (number (int (pos 0)));
      uptime = some (to_number E ctime);
      user_status = some ustatus;
      user_color = some ucolor;
    })

  -- A key that was deleted. `BigInt('0x' + cid).toString(16)` is the engine's, and given as `hex`.
  abbrev pub delete_named : (Text → Text) → Output Float → Globals Float → Globals Float
  delete_named hex (text key) s =
      if starts_with backends_prefix key && ends_with (units "connected") key
      then delete_backend (hex (extract_backend_name key)) s
      else s
  delete_named hex _ s = s

  -- 'mxrdb::keydeleted'
  unfoldable pub on_key_deleted : (Text → Text) → MxGenericType → Job (Globals Float) (Unit {0})
  on_key_deleted hex frame = do key ← attempt (astype E frame string); modify (delete_named hex key)

  module _ (assign : Option (Backend Float) → Backend Float → Backend Float) where
    -- What init_client_status starts for each backend: `create_client_status(x).then(...)`.
    unfoldable pub init_client : Text → Job (Globals Float) (Unit {0})
    init_client clientid = do
      status ← create_client_status clientid
      modify (set_backends assign clientid (instantiated status))

    -- '/system/backends/*/connected'
    unfoldable pub on_connected : Text → MxGenericType → Job (Globals Float) (Unit {0})
    on_connected key value = do
      connected ← attempt (astype E value bool)
      res ← read_direct (backend_key (extract_backend_name key) (units "/last_connect_time"))
      uptime ← attempt (astype E res int64)
      modify (
          set_backends assign (extract_backend_name key) (
            plain (record blank {
              connected = some connected;
              user_status = some (text (units "None"));
              uptime = some (to_number E uptime);
            })))

    -- '/system/backends/*/name'
    unfoldable pub on_name : Text → MxGenericType → Job (Globals Float) (Unit {0})
    on_name key value = do
      name ← attempt (astype E value string)
      res ← read_direct (backend_key (extract_backend_name key) (units "/host"))
      host ← attempt (astype E res string)
      modify (
          set_backends assign (extract_backend_name key)
            (plain (record blank { name = some name; host = some host })))

    abbrev pub set_speed : Text → Output Float → Globals Float → Globals Float
    set_speed key speed s =
        if ends_with (units "read") key
        then set_backends assign (extract_backend_name key)
            (plain (record blank { evt_download_speed = some speed })) s
        else if ends_with (units "write") key
        then set_backends assign (extract_backend_name key)
            (plain (record blank { evt_upload_speed = some speed })) s
        else s

    -- '/system/backends/*/statistics/event/*'
    unfoldable pub on_statistics : Text → Job (Globals Float) (Unit {0})
    on_statistics key = do
      res ← read_direct key
      speed ← attempt (astype E res uint32)
      modify (set_speed key speed)

    -- '/system/backends/*/user_status/text'
    unfoldable pub on_user_status : Text → MxGenericType → Job (Globals Float) (Unit {0})
    on_user_status key value = do
      user_status ← attempt (astype E value string)
      res ← read_direct (backend_key (extract_backend_name key) (units "/user_status/color"))
      user_color ← attempt (astype E res string)
      modify (
          set_backends assign (extract_backend_name key)
            (plain (record blank { user_color = some user_color; user_status = some user_status })))

    unfoldable pub call_back : Callback → Job (Globals Float) (Unit {0})
    unfolding on_connected on_name on_user_status on_statistics
    call_back (connects key value) = on_connected key value
    call_back (names key value) = on_name key value
    call_back (status_changes key value) = on_user_status key value
    call_back (measures key) = on_statistics key
