-- ===== src/History/Stored.antt =====
-- HistoryViewer.tsx: the displays that are stored for the user, and the keys of the database to choose
-- from with their types. What a `then` is given is run when the reply comes in.
use mulex_fk.Prelude.{ℕ, if◌then◌else◌, Bool, true, false, Option, none, some, List, [], ◌∷◌}
use mulex_fk.Prelude.Keys.{number_key, list_key}
use mulex_fk.Prelude.Literals.{units}
use mulex_fk.Prelude.Results.{Result, ok, throw, type_error}
use mulex_fk.Convert.Names.{native, generic, stringarray, string, uint8}
use mulex_fk.Convert.Bytes.{whole}
use mulex_fk.Convert.Engine.{Engine, Text}
use mulex_fk.Convert.Encode.{from_data, str512}
use mulex_fk.Convert.Decode.{Output, number, numbers, text, texts, astype}
use mulex_fk.Calls.Jobs.{Job, done, await, modify, attempt, get, ◌>>=◌, ◌>>◌}
use mulex_fk.Stores.Sets
use mulex_fk.Stores.Sets.{SetStore, add_value, remove_value, set_values}
use mulex_fk.Stores.Maps
use mulex_fk.Stores.Maps.{MapStore, add_entry, remove_entry}
use mulex_fk.Users.Meta.{Json, get_meta, set_meta}
use mulex_fk.History.Selection.{DisplayOptions}

-- No type is `undefined`: there was none at the index.
pub record Displays (Float : Type 0) : Type 0 where
  pub displays : MapStore Text (List DisplayOptions)
  pub rdb_key_types : MapStore Text (Option (Output Float))
  pub rdb_keys : SetStore Text
  pub mount_skip : Bool

-- The displays as a JSON value: `Array.from(entries)`, `new Map(value)`, and whether it is truthy.
pub record Entries (json : Json) : Type 0 where
  pub array_from : List (Text × List DisplayOptions) → json.V
  pub new_map : json.V → Result (List (Text × List DisplayOptions))
  pub is_truthy : json.V → Bool

-- `displaysActions.add` for each entry.
unfoldable pub add_displays :
    {F : Type 0} → List (Text × List DisplayOptions) → Displays F → Displays F
add_displays [] s = s
add_displays ((name, options) ∷ rest) s =
    add_displays rest (record s { displays = Maps.run (add_entry name options) s.displays })

-- `rdbkeytypes[i]`, and what stands behind it; null has no element.
abbrev pub next_type : {F : Type 0} → Output F → Result (Option (Output F) × Output F)
next_type (numbers []) = ok (none, numbers [])
next_type (numbers (n ∷ ns)) = ok (some (number n), numbers ns)
next_type (number n) = ok (none, number n)
next_type _ = throw type_error

-- The loop over the keys.
unfoldable pub add_types : {F : Type 0} → List Text → Output F → Displays F → Result (Displays F)
add_types [] types s = ok s
add_types (key ∷ keys) types s = elim (next_type types) [
  | ok (t, rest) ↦
      add_types keys rest (record s { rdb_key_types = Maps.run (add_entry key t) s.rdb_key_types })
  | throw e ↦ throw e
]

abbrev pub keys_of : {F : Type 0} → Output F → Result (List Text)
keys_of (texts ts) = ok ts
keys_of _ = throw type_error

abbrev pub text_of : {F : Type 0} → Output F → Result Text
text_of (text t) = ok t
text_of _ = throw type_error

module _ (E : Engine) where
  open E use {Float}

  abbrev ask_types : List Text → Job (Displays Float) (Unit {0})
  ask_types keys = do
    reply ← await "mulex::RdbListKeyTypes" [] generic
    types ← attempt (astype E reply uint8)
    s ← get
    added ← attempt (add_types keys types s)
    modify (λ s. added)

  -- The requests of HistoryPlotRDBSearcher.
  unfoldable pub list_keys : Job (Displays Float) (Unit {0})
  list_keys = do
    reply ← await "mulex::RdbListKeys" [] generic
    output ← attempt (astype E reply stringarray)
    keys ← attempt (keys_of output)
    modify (λ s. record s { rdb_keys = Sets.run (set_values keys) s.rdb_keys })
    ask_types keys

  abbrev has_no_values : List Text → Bool
  has_no_values [] = true
  has_no_values (k ∷ ks) = false

  -- When it is made: `if(rdbKeys.data.size === 0)`.
  unfoldable pub list_keys_first : Job (Displays Float) (Unit {0})
  unfolding list_keys
  list_keys_first = do s ← get; if has_no_values s.rdb_keys.values then list_keys else done tt

  -- When the connection comes up or is lost.
  unfoldable pub on_connection : Bool → Job (Displays Float) (Unit {0})
  unfolding list_keys
  on_connection conn = if conn then list_keys else done tt

  -- The callbacks of the subscriptions to 'mxrdb::keycreated' and 'mxrdb::keydeleted'.
  unfoldable pub key_created : List ℕ → Job (Displays Float) (Unit {0})
  key_created frame = do
    output ← attempt (astype E (from_data (whole frame) native) string)
    key ← attempt (text_of output)
    modify (λ s. record s { rdb_keys = Sets.run (add_value key) s.rdb_keys })
    entry ← attempt (str512 E key native)
    res ← await "mulex::RdbGetKeyType" (entry ∷ []) native
    t ← attempt (astype E res uint8)
    modify (λ s. record s { rdb_key_types = Maps.run (add_entry key (some t)) s.rdb_key_types })

  unfoldable pub key_deleted : List ℕ → Job (Displays Float) (Unit {0})
  key_deleted frame = do
    output ← attempt (astype E (from_data (whole frame) native) string)
    key ← attempt (text_of output)
    modify (λ s. record s {
      rdb_keys = Sets.run (remove_value key) s.rdb_keys;
      rdb_key_types = Maps.run (remove_entry key) s.rdb_key_types;
    })

  module _ (json : Json) (entries : Entries json) where
    open json use {V}
    open entries use {array_from, new_map, is_truthy}

    -- The call of Set is not awaited.
    unfoldable pub save_entries : Job (Displays Float) (Unit {0})
    save_entries = do s ← get; set_meta E json (units "hpm_keys") (array_from s.displays.entries)

    abbrev load_from : V → Job (Displays Float) (Unit {0})
    load_from stored = do
      reply ← await "mulex::RdbListKeys" [] generic
      output ← attempt (astype E reply stringarray)
      keys ← attempt (keys_of output)
      ask_types keys
      dict ← attempt (new_map stored)
      modify (add_displays dict)

    abbrev load_if : Bool → V → Job (Displays Float) (Unit {0})
    load_if true stored = load_from stored
    load_if false stored = done tt

    abbrev load_found : Option V → Job (Displays Float) (Unit {0})
    load_found none = done tt
    load_found (some stored) = load_if (is_truthy stored) stored

    unfoldable pub load_entries : Job (Displays Float) (Unit {0})
    load_entries = do stored ← get_meta E json (units "hpm_keys"); load_found stored

    -- The effect on the displays: it skips its first run.
    abbrev save_unless : Bool → Job (Displays Float) (Unit {0})
    save_unless true = modify (λ s. record s { mount_skip = false })
    save_unless false = save_entries

    unfoldable pub on_displays : Job (Displays Float) (Unit {0})
    unfolding save_entries
    on_displays = do s ← get; save_unless s.mount_skip
