-- ===== src/Tests/Pages.antt =====
-- The state of the pages in short runs.
use mulex_fk.Prelude.{
  ℕ, ◌+◌, ◌<◌, ◌*◌, ◌≤◌, ◌≡◌, refl, arith, Bool, true, false, Option, none, some, List, [], ◌∷◌,
  ◌++◌, map, All, length,
}
use mulex_fk.Prelude.Int.{ℤ, pos}
use mulex_fk.Prelude.Keys.{number_key, list_key, int_key, same_list_iff, same_int}
use mathlib.Core.List.{Mem}
use mulex_fk.Convert.Engine.{Text}
use mulex_fk.Stores.Sets
use mulex_fk.Stores.Maps
use mulex_fk.Stores.MapLaws.{HasDistinctKeys}
use mulex_fk.History.Plot.{Arrival, receive_all, mounted, recent, receive_all-mounted}
use mulex_fk.History.Selection.{Form, selects, act}
use mulex_fk.History.Agreement.{IsForm, act-IsForm}
use mulex_fk.Upload.Sending.{File}
use mulex_fk.Upload.Dropping.{DropProps, DropState, on_drop}
use mulex_fk.Upload.Chosen.{IsChosen, on_drop-IsChosen}
use mulex_fk.Clients.Table.{ClientInfo, Clients, leaves}
use mulex_fk.Clients.Table
use mulex_fk.Clients.Connected.{IsUnique, shows, after, act-shows}
use mulex_fk.Events.Statistics.{EventMeta, EventRow, new_event, read_events}
use mulex_fk.Events.Rows.{IsKept}
use mulex_fk.Events.Polls.{read_events-IsKept}
use mulex_fk.Logs.Provider
use mulex_fk.Logs.Provider.{MxLog, Message, LogState, receives, names, start}
use mulex_fk.Logs.Bounds.{IsBounded, act_all-IsBounded}
use mulex_fk.Logs.Order.{entries, entries_of, list_of, act_all-entries}
use mulex_fk.Search.Bar.{ServerSearch, answers, turn, here, next, handle_input_event}
use mulex_fk.Search.Lost.{typed-lost}
use mulex_fk.Runs.Files.{RunLogFile, keep_latest}
use mulex_fk.Runs.Latest.{Covers, keep_latest-Covers}

abbrev first_arrival : Arrival ℕ ℕ
first_arrival = record { option = 0; value = 7; time = 100 }

abbrev second_arrival : Arrival ℕ ℕ
second_arrival = record { option = 1; value = 8; time = 101 }

receive_all-mounted_example :
    receive_all ℕ ℕ (first_arrival ∷ second_arrival ∷ []) (mounted ℕ ℕ 2)
    ≡ recent ℕ ℕ 2 (first_arrival ∷ second_arrival ∷ [])
receive_all-mounted_example = receive_all-mounted ℕ ℕ 2 (first_arrival ∷ second_arrival ∷ [])

abbrev empty_form : Form
empty_form = record {
  selected_keys = record { values = [] };
  selected_keys_data = record { entries = [] };
  displays = record { entries = [] };
  display_name = [];
  open_hpm = false;
}

empty_form-IsForm : IsForm empty_form
unfolding Sets.has Maps.get
empty_form-IsForm = record { agree = λ w. refl; own = λ w o e. cc }

act-IsForm_example : IsForm (act (selects (97 ∷ [])) empty_form)
act-IsForm_example = act-IsForm (selects (97 ∷ [])) empty_form empty_form-IsForm

abbrev note : File
note = record { name = b'a' ∷ b'.' ∷ b't' ∷ []; mime = []; bytes = 1 ∷ 2 ∷ 3 ∷ [] }

abbrev text_only : DropProps
text_only = record { allowed_extensions = some ((b't' ∷ []) ∷ []); limit = 1; max_size = 3 }

abbrev nothing_dropped : DropState
nothing_dropped = record { dragging = true; files = record { entries = [] }; error_msg = [] }

nothing_dropped-IsChosen : IsChosen (λ t. t) text_only nothing_dropped
unfolding Maps.get
nothing_dropped-IsChosen = ((λ name file e. cc), omega arith)

on_drop-IsChosen_example :
    IsChosen (λ t. t) text_only (on_drop (λ t. t) text_only (note ∷ []) nothing_dropped)
on_drop-IsChosen_example =
    on_drop-IsChosen (λ t. t) text_only (note ∷ []) nothing_dropped nothing_dropped-IsChosen

abbrev home : Text
home = 49 ∷ []

abbrev one_client : Clients
one_client = record {
  entries = (home, record { ip = home; timestamp = pos 0; connections = 5 ∷ [] }) ∷ [];
}

one_client-IsUnique : IsUnique one_client
unfolding Maps.get
one_client-IsUnique ip ip' id h h' = ground (arith, same_list_iff home ip, same_list_iff home ip')

act-shows_example :
    HasDistinctKeys (Table.act (leaves 5) one_client).entries
    × ((ip : Text) (id : ℕ)
        → shows (Table.act (leaves 5) one_client) ip id ≡ after (leaves 5) (shows one_client) ip id)
unfolding Maps.has
act-shows_example = act-shows (leaves 5) one_client (refl, tt) one_client-IsUnique

abbrev quiet_row : EventRow
quiet_row = record { eid = pos 3; name = 101 ∷ []; io = 0; clients = []; frames = [] }

abbrev busy_row : EventRow
busy_row = record { eid = pos 3; name = 101 ∷ []; io = 9; clients = []; frames = [] }

read_events-IsKept_example :
    (m : EventMeta) × (Maps.get (read_events (quiet_row ∷ busy_row ∷ []) []) (pos 3) ≡ some m)
    × IsKept (new_event quiet_row none) [] [] (busy_row ∷ []) m
unfolding same_int
read_events-IsKept_example =
    read_events-IsKept (quiet_row ∷ busy_row ∷ []) (busy_row ∷ []) quiet_row (pos 3)
      (omega arith, (omega arith, tt)) refl

abbrev clock : ℤ → Text
clock z = []

abbrev warning : Message
warning = record { cid = 4; ts = pos 0; type = 1; message = 119 ∷ []; display_toast = true }

act_all-IsBounded_example :
    IsBounded 1 (
      Provider.act_all clock clock 1
        (receives warning ∷ names 0 home ∷ receives warning ∷ [])
        start)
act_all-IsBounded_example =
    act_all-IsBounded clock clock 1 (omega arith)
      (receives warning ∷ names 0 home ∷ receives warning ∷ [])

-- A name is known, and no message has come yet.
abbrev known : LogState
known = record { logs = []; blogs = []; client_msg_list = (4, home) ∷ []; awaiting = [] }

act_all-entries_example :
    ((Provider.act_all clock clock 1 (map receives (warning ∷ warning ∷ [])) known).logs
      ≡ Provider.keep_last clock clock 1
          ([] ++ entries clock clock 1 (λ cid. home) (warning ∷ warning ∷ [])))
    × (list_of (
          Maps.get
            (Provider.act_all clock clock 1 (map receives (warning ∷ warning ∷ [])) known).blogs
            4)
        ≡ Provider.keep_last clock clock 1
            ([] ++ entries_of clock clock 1 (λ cid. home) 4 (warning ∷ warning ∷ [])))
    × ((Provider.act_all clock clock 1 (map receives (warning ∷ warning ∷ [])) known).awaiting ≡ [])
unfolding Maps.get Provider.keep_last mulex_fk.Prelude.Ends.slice_last
act_all-entries_example =
    act_all-entries clock clock 1 (λ cid. home) (warning ∷ warning ∷ []) known 4 [] []
      (refl, (refl, tt)) refl refl

abbrev old_log : RunLogFile
old_log = record { handle = 1 ∷ []; alias = home; timestamp = 50 ∷ [] }

abbrev new_log : RunLogFile
new_log = record { handle = 2 ∷ []; alias = home; timestamp = 51 ∷ [] }

keep_latest-Covers_example :
    All (Covers (keep_latest (old_log ∷ new_log ∷ []) [])) (old_log ∷ new_log ∷ [])
    × ((a : Text) (kept : RunLogFile)
        → Maps.get (keep_latest (old_log ∷ new_log ∷ []) []) a ≡ some kept
        → Mem kept (old_log ∷ new_log ∷ []))
keep_latest-Covers_example = keep_latest-Covers (old_log ∷ new_log ∷ [])

-- A query is under way.
abbrev searching : ServerSearch
searching = record {
  query = 97 ∷ [];
  flen = 0;
  is_working = true;
  timers = [];
  asked = (97 ∷ []) ∷ [];
}

abbrev answered : ServerSearch
answered = turn (answers 2) (handle_input_event (97 ∷ 98 ∷ []) searching)

typed-lost_example : (answered.query ≡ 97 ∷ 98 ∷ []) × (answered.asked ≡ (97 ∷ []) ∷ [])
typed-lost_example = typed-lost 97 (98 ∷ []) searching refl refl (next here (answers 2))
