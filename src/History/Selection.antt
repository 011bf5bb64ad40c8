-- ===== src/History/Selection.antt =====
-- HistoryViewer.tsx: the form for a new display. Its state is shared by the whole page.
use mulex_fk.Prelude.{Bool, true, false, not, Option, none, some, List, [], ◌∷◌, map, if◌then◌else◌}
use mulex_fk.Prelude.Keys.{number_key, list_key}
use mulex_fk.Convert.Engine.{Text}
use mulex_fk.Stores.Sets
use mulex_fk.Stores.Sets.{SetStore, SetAction, add_value, remove_value, clear_values}
use mulex_fk.Stores.Maps
use mulex_fk.Stores.Maps.{MapStore, MapAction, add_entry, modify_entry, remove_entry, clear_entries}

pub record DisplayOptions : Type 0 where
  pub color : Text
  pub label : Option Text
  pub fill : Bool
  pub key : Text
  pub dedicated_y : Bool

pub record Form : Type 0 where
  pub selected_keys : SetStore Text
  pub selected_keys_data : MapStore Text DisplayOptions
  pub displays : MapStore Text (List DisplayOptions)
  pub display_name : Text
  pub open_hpm : Bool

-- "black", and nothing else chosen
abbrev pub default_options : Text → DisplayOptions
default_options k = record {
  color = b'b' ∷ b'l' ∷ b'a' ∷ b'c' ∷ b'k' ∷ [];
  label = none;
  fill = false;
  key = k;
  dedicated_y = false;
}

abbrev is_empty_text : Text → Bool
is_empty_text [] = true
is_empty_text (c ∷ t) = false

-- The effect on selectedItem, for an item that is not ''.
unfoldable pub select_key : Text → Form → Form
select_key k f = record f {
  selected_keys = Sets.run (add_value k) f.selected_keys;
  selected_keys_data = Maps.run (add_entry k (default_options k)) f.selected_keys_data;
}

-- The cross beside a key.
unfoldable pub unselect_key : Text → Form → Form
unselect_key k f = record f {
  selected_keys = Sets.run (remove_value k) f.selected_keys;
  selected_keys_data = Maps.run (remove_entry k) f.selected_keys_data;
}

abbrev pub change_options :
    (DisplayOptions → DisplayOptions) → Option DisplayOptions → Text → Form → Form
change_options g none k f = f
change_options g (some o) k f = record f {
  selected_keys_data = Maps.run (modify_entry k (g o)) f.selected_keys_data;
}

-- The inputs of a key: its options are read and written back, changed.
unfoldable pub edit_options : (DisplayOptions → DisplayOptions) → Text → Form → Form
edit_options g k f = change_options g (Maps.get f.selected_keys_data.entries k) k f

abbrev pub set_label : Text → DisplayOptions → DisplayOptions
set_label v o = record o { label = some v }

abbrev pub set_color : Text → DisplayOptions → DisplayOptions
set_color v o = record o { color = v }

abbrev pub toggle_fill : DisplayOptions → DisplayOptions
toggle_fill o = record o { fill = not o.fill }

abbrev pub toggle_dedicated_y : DisplayOptions → DisplayOptions
toggle_dedicated_y o = record o { dedicated_y = not o.dedicated_y }

abbrev has_values : List Text → Bool
has_values [] = false
has_values (k ∷ ks) = true

-- What validityHandler is told.
unfoldable pub valid : Form → Bool
valid f =
    if is_empty_text f.display_name
    then false
    else if Maps.has f.displays.entries f.display_name
    then false
    else has_values f.selected_keys.values

abbrev pub reset : Form → Form
reset f = record f {
  display_name = [];
  open_hpm = false;
  selected_keys = Sets.run clear_values f.selected_keys;
  selected_keys_data = Maps.run clear_entries f.selected_keys_data;
}

-- The button is disabled unless the form is valid.
unfoldable pub press_done : Form → Form
unfolding valid
press_done f =
    if valid f
    then reset (record f {
      displays =
          Maps.run (add_entry f.display_name (map (λ e. e.1) f.selected_keys_data.entries))
            f.displays;
    })
    else f

unfoldable pub press_cancel : Form → Form
press_cancel f = reset f

pub data FormAction : Type 0 where
  selects unselects : Text → FormAction
  labels colours : Text → Text → FormAction
  fills dedicates : Text → FormAction
  names : Text → FormAction
  opens : Bool → FormAction
  finishes cancels : FormAction

unfoldable pub act : FormAction → Form → Form
unfolding select_key unselect_key edit_options press_done press_cancel
act (selects k) f = select_key k f
act (unselects k) f = unselect_key k f
act (labels k v) f = edit_options (set_label v) k f
act (colours k v) f = edit_options (set_color v) k f
act (fills k) f = edit_options toggle_fill k f
act (dedicates k) f = edit_options toggle_dedicated_y k f
act (names v) f = record f { display_name = v }
act (opens b) f = record f { open_hpm = b }
act finishes f = press_done f
act cancels f = press_cancel f
