-- ===== src/Events/Statistics.antt =====
-- EventsViewer.tsx: checkSystemEvent, computeClientsIO, readEventStatistics and the getters of the
-- selected event.
use mulex_fk.Prelude.{
  ℕ, zero, suc, ◌+◌, Bool, false, ◌&&◌, ◌||◌, not, Option, none, some, List, [], ◌∷◌, ◌++◌, take,
  drop, length, if◌then◌else◌, ◌/◌, ◌==◌,
}
use mulex_fk.Prelude.Ends.{slice_last}
use mulex_fk.Prelude.Int.{ℤ}
use mulex_fk.Prelude.Keys.{number_key, int_key}
use mulex_fk.Prelude.Literals.{units}
use mulex_fk.Convert.Engine.{Text}
use mulex_fk.Convert.Bytes.{le_value}
use mulex_fk.Stores.Maps
use mulex_fk.Utils.Texts.{starts_with, ends_with}
use mulex_fk.Utils.Units.{event_io_extract}

-- `none` is undefined.
pub record EventIo : Type 0 where
  pub read : ℕ
  pub write : ℕ
  pub lread : Option (List ℕ)
  pub lwrite : Option (List ℕ)

-- By the client's id, which stands for its hexadecimal text.
abbrev pub ClientsIo : Type 0
ClientsIo = List (ℕ × EventIo)

pub record EventMeta : Type 0 where
  pub name : Text
  pub trigger : ℕ
  pub issys : Bool
  pub capture : Bool
  pub io : EventIo
  pub clients : Option ClientsIo

-- By the event's id.
abbrev pub EventMetaList : Type 0
EventMetaList = List (ℤ × EventMeta)

-- A row of `unpack(['int16', 'str32', 'uint64', 'bytearray', 'bytearray'])`.
pub record EventRow : Type 0 where
  pub eid : ℤ
  pub name : Text
  pub io : ℕ
  pub clients : List ℕ
  pub frames : List ℕ

unfoldable pub check_system_event : Text → Bool
unfolding starts_with ends_with
check_system_event name =
    starts_with (units "mx") name
    || ends_with (units "::rpc") name
    || ends_with (units "::rpc_res") name

-- `for(let i = 0; i < clients.byteLength; i += 8)` on arrays of the same length; the first argument is
-- the number of rounds. A last word that is not whole makes getBigUint64 throw: that is `none`.
unfoldable pub read_clients : ℕ → List ℕ → List ℕ → ClientsIo → Option ClientsIo
unfolding event_io_extract le_value Maps.put
read_clients zero clients frames cio = some cio
read_clients (suc n) clients frames cio =
    let io = event_io_extract (le_value (take 8 frames)) in
    let rest = read_clients n (drop 8 clients) (drop 8 frames) (
      Maps.put cio (le_value (take 8 clients))
        (record { read = io.r; write = io.w; lread = none; lwrite = none })) in
    if length (take 8 clients) == 8 then rest else none

-- `some none` is undefined, and `none` an exception.
unfoldable pub compute_clients_io : List ℕ → List ℕ → Option (Option ClientsIo)
unfolding read_clients
compute_clients_io clients frames =
    if length clients == 0 || length frames == 0
    then some none
    else if not (length clients == length frames)
    then some none
    else elim (read_clients ((length clients + 7) / 8) clients frames []) [
      | none ↦ none
      | some cio ↦ some (some cio)
    ]

abbrev pub new_event : EventRow → Option ClientsIo → EventMeta
new_event row client_frames =
    let io = event_io_extract row.io in
    record {
      name = row.name;
      trigger = 0;
      issys = check_system_event row.name;
      capture = false;
      io = record { read = io.r; write = io.w; lread = some []; lwrite = some [] };
      clients = client_frames;
    }

-- `[...(values ?? []), value].slice(-20)`
abbrev pub append_value : Option (List ℕ) → ℕ → List ℕ
append_value none value = slice_last 20 (value ∷ [])
append_value (some values) value = slice_last 20 (values ++ (value ∷ []))

-- The event of a row that is known: `setEventsMeta(eid, part)` keeps the fields that `part` has not.
abbrev pub known_event : EventRow → Option ClientsIo → EventMeta → EventMeta
known_event row client_frames p =
    let io = event_io_extract row.io in
    if io.r == 0 && io.w == 0 then record p { trigger = p.trigger + 1 } else record p {
      trigger = 0;
      clients = client_frames;
      io = record {
        read = io.r;
        write = io.w;
        lread = some (append_value p.io.lread io.r);
        lwrite = some (append_value p.io.lwrite io.w);
      };
    }

abbrev pub next_event : EventRow → Option ClientsIo → Option EventMeta → EventMeta
next_event row client_frames none = new_event row client_frames
next_event row client_frames (some p) = known_event row client_frames p

-- A round of the loop; `none` is an exception.
abbrev pub store_event : EventRow → EventMetaList → Option (Option ClientsIo) → Option EventMetaList
store_event row events none = none
store_event row events (some client_frames) =
    some (Maps.put events row.eid (next_event row client_frames (Maps.get events row.eid)))

unfoldable pub read_event : EventRow → EventMetaList → Option EventMetaList
read_event row events = store_event row events (compute_clients_io row.clients row.frames)

abbrev pub after_event :
    EventMetaList → (EventMetaList → EventMetaList) → Option EventMetaList → EventMetaList
after_event events next none = events
after_event events next (some events') = next events'

-- The loop over the rows of a poll. An exception leaves the events of the rows before.
unfoldable pub read_events : List EventRow → EventMetaList → EventMetaList
read_events [] events = events
read_events (row ∷ rows) events =
    after_event events (λ events'. read_events rows events') (read_event row events)

module _ (events : EventMetaList) (popup_id : ℤ) where
  abbrev pub name_of : Option EventMeta → Text
  name_of none = []
  name_of (some evt) = evt.name

  abbrev pub registrar_of : Option EventMeta → Text
  registrar_of none = []
  registrar_of (some evt) = if evt.issys then units "System" else units "User"

  abbrev pub clients_of : Option EventMeta → ClientsIo
  clients_of none = []
  clients_of (some evt) = elim evt.clients [ none ↦ [] | some clients ↦ clients ]

  unfoldable pub get_selected_event_name : Text
  get_selected_event_name = name_of (Maps.get events popup_id)

  unfoldable pub get_selected_event_registrar : Text
  get_selected_event_registrar = registrar_of (Maps.get events popup_id)

  unfoldable pub get_selected_event_client_frames : ClientsIo
  get_selected_event_client_frames = clients_of (Maps.get events popup_id)
