-- ===== src/Runs/Files.antt =====
-- RunViewer.tsx: changeDisplayMode, setupTable and updateLogsPage.
use mulex_fk.Prelude.{
  ℕ, Bool, true, false, Option, none, some, List, [], ◌∷◌, ◌++◌, map, ltb, ◌==◌, if◌then◌else◌,
}
use mulex_fk.Prelude.Keys.{number_key, list_key}
use mulex_fk.Prelude.Literals.{units}
use mulex_fk.Convert.Engine.{Text}
use mulex_fk.Stores.Maps

pub record RunLogFile : Type 0 where
  pub handle : Text
  pub alias : Text
  pub timestamp : Text

-- By the name of the backend.
abbrev pub RunLogFileStore : Type 0
RunLogFileStore = List (Text × List RunLogFile)

-- `a > b` on strings: the first code unit that differs, or the longer text.
unfoldable pub text_gt : Text → Text → Bool
text_gt [] b = false
text_gt (x ∷ a) [] = true
text_gt (x ∷ a) (y ∷ b) = if x == y then text_gt a b else ltb y x

-- `!existing || file.timestamp > existing.timestamp`
abbrev pub is_newer : RunLogFile → Option RunLogFile → Bool
is_newer file none = true
is_newer file (some existing) = text_gt file.timestamp existing.timestamp

-- The loop that fills `existMap`.
unfoldable pub keep_latest : List RunLogFile → List (Text × RunLogFile) → List (Text × RunLogFile)
keep_latest [] exist_map = exist_map
keep_latest (file ∷ logfiles) exist_map = keep_latest logfiles (
    if is_newer file (Maps.get exist_map file.alias)
    then Maps.put exist_map file.alias file
    else exist_map)

unfoldable pub latest_files : List RunLogFile → List RunLogFile
unfolding keep_latest
latest_files logfiles = map (λ entry. entry.1) (keep_latest logfiles [])

abbrev pub only_latest : RunLogFileStore → RunLogFileStore
only_latest log_files = map (λ entry. (entry.0, latest_files entry.1)) log_files

-- `logFilesActions(logFileCache)` puts the files of the cache back, backend by backend. Before the first
-- reply there is no cache.
abbrev pub put_back : Option RunLogFileStore → RunLogFileStore → RunLogFileStore
put_back none log_files = log_files
put_back (some cache) log_files = Maps.put_all log_files cache

unfoldable pub change_display_mode :
    Option RunLogFileStore → Bool → RunLogFileStore → RunLogFileStore
unfolding latest_files
change_display_mode cache only_last_version log_files =
    if only_last_version then only_latest log_files else put_back cache log_files

-- A row of `unpack(['str512', 'str512', 'uint64', 'str512'])`.
pub record FileRow : Type 0 where
  pub handle : Text
  pub alias : Text
  pub cid : ℕ
  pub timestamp : Text

abbrev pub append_file : Option (List RunLogFile) → RunLogFile → List RunLogFile
append_file none file = file ∷ []
append_file (some files) file = files ++ (file ∷ [])

-- The loop over the rows; `names` is what the database has for the names of the backends.
unfoldable pub add_files : (names : ℕ → Text) → List FileRow → RunLogFileStore → RunLogFileStore
add_files names [] log_files = log_files
add_files names (row ∷ files) log_files = add_files names files (
    Maps.put log_files (names row.cid) (
      append_file (Maps.get log_files (names row.cid))
        (record { handle = row.handle; alias = row.alias; timestamp = row.timestamp })))

-- setupTable, if the reply has rows: the cache and the table behind it.
unfoldable pub setup_table :
    (names : ℕ → Text)
    → List FileRow
    → (only_last_version : Bool) → RunLogFileStore
    → RunLogFileStore × RunLogFileStore
unfolding add_files change_display_mode
setup_table names files only_last_version log_files =
    let filled = add_files names files (map (λ entry. (entry.0, [])) log_files) in
    (filled, change_display_mode (some filled) only_last_version filled)

pub record RunEntry : Type 0 where
  pub id : ℕ
  pub alias : Text
  pub start_ts : Text
  pub stop_ts : Text
  pub status : Text

-- A row of `unpack(['uint64', 'str512', 'str512', 'str512'])`.
pub record RunRow : Type 0 where
  pub id : ℕ
  pub alias : Text
  pub start_ts : Text
  pub stop_ts : Text

-- `stop_ts ? 'Stopped' : 'Running'`
abbrev pub run_state : Text → Text
run_state [] = units "Running"
run_state (c ∷ t) = units "Stopped"

-- updateLogsPage, on the rows of the reply.
unfoldable pub update_logs_page : List RunRow → List RunEntry
update_logs_page rows =
    map
      (λ run. record {
        id = run.id;
        alias = run.alias;
        start_ts = run.start_ts;
        stop_ts = run.stop_ts;
        status = run_state run.stop_ts;
      })
      rows
