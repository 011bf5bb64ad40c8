-- ===== src/Global/Told.antt =====
-- globalstate.ts: what a callback of init_backend_status is to read, and what it is to tell the store.
use mulex_fk.Prelude.{Option, none, some, [], ◌∷◌, ◌++◌, ◌≡◌, ◌⊎◌, if◌then◌else◌}
use mulex_fk.Prelude.Keys.{number_key, list_key}
use mulex_fk.Prelude.Literals.{units}
use mulex_fk.Prelude.Results.{Error, ok, throw}
use mulex_fk.Convert.Names.{native, generic, bool, string, int64, uint32}
use mulex_fk.Convert.Engine.{Engine, Text}
use mulex_fk.Convert.Encode.{MxGenericType, str512}
use mulex_fk.Convert.Decode.{Output, text, astype}
use mulex_fk.Stores.Maps
use mulex_fk.Calls.Jobs.{Request, rpc}
use mulex_fk.Calls.Servers.{Server, Outcome}
use mulex_fk.Utils.Texts.{ends_with}
use mulex_fk.Global.State.{BackendStatus, Backend, plain, blank, Globals, to_number}
use mulex_fk.Global.Backends.{Callback, connects, names, status_changes, measures}

-- `/system/backends/${cid}/${rest}`
abbrev pub key_of : Text → Text → Text
key_of cid rest = units "/system/backends/" ++ (cid ++ (units "/" ++ rest))

module _ (E : Engine) (cid : Text) where
  open E use {Float}

  -- The key whose value a callback asks for.
  abbrev pub asks_for : Callback → Text
  asks_for (connects key value) = units "/system/backends/" ++ (cid ++ units "/last_connect_time")
  asks_for (names key value) = units "/system/backends/" ++ (cid ++ units "/host")
  asks_for (status_changes key value) =
      units "/system/backends/" ++ (cid ++ units "/user_status/color")
  asks_for (measures key) = key

  abbrev pub speed_of : Text → Output Float → Option (BackendStatus Float)
  speed_of key speed =
      if ends_with (units "read") key
      then some (record blank { evt_download_speed = some speed })
      else if ends_with (units "write") key
      then some (record blank { evt_upload_speed = some speed })
      else none

  -- The fields that a callback sets, for the value that it was called with and for the reply.
  abbrev pub Says : Callback → MxGenericType → Option (BackendStatus Float) → Type 0
  Says (connects key value) reply fields =
      (flag time : Output Float) × (astype E value bool ≡ ok flag)
      × (astype E reply int64 ≡ ok time)
      × (fields
          ≡ some (record blank {
            connected = some flag;
            user_status = some (text (units "None"));
            uptime = some (to_number E time);
          }))
  Says (names key value) reply fields =
      (name host : Output Float) × (astype E value string ≡ ok name)
      × (astype E reply string ≡ ok host)
      × (fields ≡ some (record blank { name = some name; host = some host }))
  Says (status_changes key value) reply fields =
      (status color : Output Float) × (astype E value string ≡ ok status)
      × (astype E reply string ≡ ok color)
      × (fields ≡ some (record blank { user_status = some status; user_color = some color }))
  Says (measures key) reply fields =
      (speed : Output Float) × (astype E reply uint32 ≡ ok speed) × (fields ≡ speed_of key speed)

  -- astype throws on the value that a callback is called with, or on the reply.
  abbrev pub Refuses : Callback → Error → Type 0
  Refuses (connects key value) e = astype E value bool ≡ throw e
  Refuses (names key value) e = astype E value string ≡ throw e
  Refuses (status_changes key value) e = astype E value string ≡ throw e
  Refuses (measures key) e = ⊥

  abbrev pub RefusesReply : Callback → MxGenericType → Error → Type 0
  RefusesReply (connects key value) reply e = astype E reply int64 ≡ throw e
  RefusesReply (names key value) reply e = astype E reply string ≡ throw e
  RefusesReply (status_changes key value) reply e = astype E reply string ≡ throw e
  RefusesReply (measures key) reply e = astype E reply uint32 ≡ throw e

  module _ (assign : Option (Backend Float) → Backend Float → Backend Float) (server : Server) where
    open server use {State, reply}

    -- The store is told of the fields for the backend `cid`, and of nothing else.
    abbrev pub told : Option (BackendStatus Float) → Globals Float → Globals Float
    told none s = s
    told (some fields) s = record s {
      backends = Maps.put s.backends cid (assign (Maps.get s.backends cid) (plain fields));
    }

    abbrev pub Ended : Type 0
    Ended = Outcome State (Globals Float) (Unit {0})

    abbrev pub value_request : MxGenericType → Request
    value_request key = rpc "mulex::RdbReadValueDirect" (key ∷ []) generic

    -- Where an exception comes from: the callback's value, a key that is too long, the call, or the reply.
    abbrev pub Throws : Callback → State → Error → Type 0
    Throws c w e =
        Refuses c e
        ⊎ ((str512 E (asks_for c) native ≡ throw e)
            ⊎ ((key : MxGenericType) × (str512 E (asks_for c) native ≡ ok key)
                × (((reply w (value_request key)).0 ≡ throw e)
                    ⊎ ((value : MxGenericType) × ((reply w (value_request key)).0 ≡ ok value)
                        × RefusesReply c value e))))

    -- One key is asked for, and the store is told what its value and the callback's say; or one of these
    -- throws, and nothing changes.
    abbrev pub IsTold : Callback → Globals Float → State → Ended → Type 0
    IsTold c s w o =
        ((key value : MxGenericType) × (fields : Option (BackendStatus Float)) × (str512 E
              (asks_for c) native
            ≡ ok key)
          × (o.sent ≡ value_request key ∷ [])
          × ((reply w (value_request key)).0 ≡ ok value)
          × Says c value fields
          × (o.result ≡ ok tt)
          × (o.state ≡ told fields s))
        ⊎ ((e : Error) × Throws c w e × (o.result ≡ throw e) × (o.state ≡ s))
