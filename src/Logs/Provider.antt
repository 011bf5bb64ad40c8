-- ===== src/Logs/Provider.antt =====
-- LogTable.tsx: LogProvider. A lookup of a backend's name is awaited, and other messages may come
-- before its reply; the lookups under way are part of the state.
use mulex_fk.Prelude.{
  ℕ, suc, ◌-◌, Bool, true, Option, none, some, List, [], ◌∷◌, ◌++◌, take, drop, length, reverse,
  get_elem?, ◌==◌, if◌then◌else◌,
}
use mulex_fk.Prelude.Ends.{slice_last}
use mulex_fk.Prelude.Int.{ℤ}
use mulex_fk.Prelude.Keys.{number_key}
use mulex_fk.Prelude.Literals.{units}
use mulex_fk.Prelude.Results.{Result, ok, ◌>>=◌}
use mulex_fk.Convert.Engine.{Text}
use mulex_fk.Convert.Bytes.{Uint8Array, contents, le_value}
use mulex_fk.Convert.Decode.{view_bytes, signed_word}
use mulex_fk.Stores.Maps

pub record MxLog : Type 0 where
  pub timestamp : Text
  pub backend : Text
  pub type : Text
  pub message : Text
  pub display_toast : Bool

unfoldable pub type_to_string : ℕ → Text
type_to_string type =
    if type == 0
    then units "info"
    else if type == 1
    then units "warn"
    else if type == 2
    then units "error"
    else []

-- The arguments of addMessageToAll and addMessageToSingle.
pub record Message : Type 0 where
  pub cid : ℕ
  pub ts : ℤ
  pub type : ℕ
  pub message : Text
  pub display_toast : Bool

-- Which list a message goes to: addMessageToAll or addMessageToSingle.
pub data Target : Type 0 where
  all single : Target

-- `logs`, `blogs` (by the client's id, which stands for its hexadecimal text), `clientMsgList`, and the
-- messages that await the name of their backend.
pub record LogState : Type 0 where
  pub logs : List MxLog
  pub blogs : List (ℕ × List MxLog)
  pub client_msg_list : List (ℕ × Text)
  pub awaiting : List (Target × Message)

abbrev pub start : LogState
start = record { logs = []; blogs = []; client_msg_list = []; awaiting = [] }

-- What may happen: a message of the 'mxmsg::message' event, a list of logs, or a name.
pub data LogEvent : Type 0 where
  receives : Message → LogEvent
  fetches : Target → List Message → LogEvent
  names : ℕ → Text → LogEvent

-- `time` and `date_time` are timestamp_tolocaltime and timestamp_tolocaldatetime_short of a Number(ts),
-- which ask the browser for its locale; `max_logs` is props.maxLogs.
module _ (time date_time : ℤ → Text) (max_logs : ℕ) where
  -- `props.maxLogs ? nlogs.slice(-props.maxLogs) : nlogs`
  unfoldable pub keep_last : List MxLog → List MxLog
  keep_last nlogs = if max_logs == 0 then nlogs else slice_last max_logs nlogs

  -- What computeLog makes of a message once the name is there.
  abbrev pub log_of : Target → Message → Text → MxLog
  log_of all m name = record {
    timestamp = time m.ts;
    backend = name;
    type = type_to_string m.type;
    message = m.message;
    display_toast = m.display_toast;
  }
  log_of single m name = record {
    timestamp = date_time m.ts;
    backend = name;
    type = type_to_string m.type;
    message = m.message;
    display_toast = m.display_toast;
  }

  abbrev pub next_blog : Option (List MxLog) → MxLog → List MxLog
  next_blog none log = log ∷ []
  next_blog (some blog) log = keep_last (blog ++ (log ∷ []))

  -- The jobs that addMessageToAll and addMessageToSingle pass on.
  unfoldable pub append_log : Target → ℕ → MxLog → LogState → LogState
  append_log all cid log s = record s { logs = keep_last (s.logs ++ (log ∷ [])) }
  append_log single cid log s = record s {
    blogs = Maps.put s.blogs cid (next_blog (Maps.get s.blogs cid) log);
  }

  abbrev pub add_named : Target → Message → Option Text → LogState → LogState
  add_named target m (some name) s = append_log target m.cid (log_of target m name) s
  add_named target m none s = record s { awaiting = s.awaiting ++ ((target, m) ∷ []) }

  -- addMessageGeneric up to the lookup, or to its end if the name is known.
  unfoldable pub add_message_generic : Target → Message → LogState → LogState
  add_message_generic target m s = add_named target m (Maps.get s.client_msg_list m.cid) s

  unfoldable pub add_message_to_both : Message → LogState → LogState
  unfolding add_message_generic
  add_message_to_both m s = add_message_generic single m (add_message_generic all m s)

  unfoldable pub add_messages : Target → List Message → LogState → LogState
  add_messages target [] s = s
  add_messages target (m ∷ messages) s =
      add_messages target messages (add_message_generic target m s)

  -- `for(const l of logs.reverse())` on the reply of MsgGetLastLogs or MsgGetLastClientLogs.
  unfoldable pub fetch_logs : Target → List Message → LogState → LogState
  unfolding add_messages
  fetch_logs target logs s = add_messages target (reverse logs) s

  abbrev pub name_found :
      Text → Option (Target × Message) → List (Target × Message) → LogState → LogState
  name_found name none rest s = s
  name_found name (some (target, m)) rest s =
      append_log target m.cid (log_of target m name)
        (record s { client_msg_list = Maps.put s.client_msg_list m.cid name; awaiting = rest })

  -- The reply to the lookup that stands at `i` among those under way.
  unfoldable pub lookup_reply : ℕ → Text → LogState → LogState
  unfolding append_log
  lookup_reply i name s =
      name_found name (get_elem? s.awaiting i) (take i s.awaiting ++ drop (suc i) s.awaiting) s

  unfoldable pub act : LogEvent → LogState → LogState
  unfolding add_message_to_both fetch_logs lookup_reply
  act (receives m) s = add_message_to_both m s
  act (fetches target logs) s = fetch_logs target logs s
  act (names i name) s = lookup_reply i name s

  abbrev pub act_all : List LogEvent → LogState → LogState
  act_all [] s = s
  act_all (event ∷ events) s = act_all events (act event s)

-- The callback of the 'mxmsg::message' event: the fields of a MsgMessage, the text without its last
-- byte. The decoder is the browser's, for 'latin1'.
unfoldable pub read_message : (List ℕ → Text) → Uint8Array → Result Message
read_message decode frame = do
  cid ← view_bytes 8 0 frame.buffer
  ts ← view_bytes 8 8 frame.buffer
  type ← view_bytes 1 16 frame.buffer
  ok (record {
    cid = le_value cid;
    ts = signed_word ts;
    type = le_value type;
    message = decode (take (length (contents frame) - 1 - 32) (drop 32 (contents frame)));
    display_toast = true;
  })
