-- ===== src/History/Agreement.antt =====
-- HistoryViewer.tsx: the two stores of the form's keys against each other.
use mulex_fk.Prelude.{◌≡◌, refl, Option, none, some, arith, Bool-cases, inl, inr}
use mulex_fk.Prelude.Keys.{same_list_iff, number_key, list_key}
use mulex_fk.Convert.Engine.{Text}
use mulex_fk.Stores.Sets
use mulex_fk.Stores.Sets.{add_value, remove_value, clear_values}
use mulex_fk.Stores.SetLaws.{run-after_set}
use mulex_fk.Stores.Maps
use mulex_fk.Stores.Maps.{add_entry, modify_entry, remove_entry, clear_entries}
use mulex_fk.Stores.MapLaws.{run-after_map, is_bound}
use mulex_fk.History.Selection.{
  DisplayOptions, Form, default_options, select_key, unselect_key, change_options, edit_options,
  set_label, set_color, toggle_fill, toggle_dedicated_y, valid, reset, press_done, press_cancel,
  act, FormAction, selects, unselects, labels, colours, fills, dedicates, names, opens, finishes,
  cancels,
}

-- The keys that are selected are those that have options, and the options of a key name it.
pub record IsForm (f : Form) : Type 0 where
  pub agree :
      (w : Text)
      → Sets.has f.selected_keys.values w ≡ is_bound (Maps.get f.selected_keys_data.entries w)
  pub own :
      (w : Text) (o : DisplayOptions) → Maps.get f.selected_keys_data.entries w ≡ some o → o.key ≡ w

select_key-IsForm : (k : Text) (f : Form) → IsForm f → IsForm (select_key k f)
unfolding select_key
select_key-IsForm k f v = record {
  agree = λ w. ground (
    arith,
    run-after_set (add_value k) f.selected_keys w,
    run-after_map (add_entry k (default_options k)) f.selected_keys_data w,
    v.agree w,
  );
  own = λ w o e. ground (
    arith,
    run-after_map (add_entry k (default_options k)) f.selected_keys_data w,
    v.own w o,
    same_list_iff k w,
  );
}

unselect_key-IsForm : (k : Text) (f : Form) → IsForm f → IsForm (unselect_key k f)
unfolding unselect_key
unselect_key-IsForm k f v = record {
  agree = λ w. ground (
    arith,
    run-after_set (remove_value k) f.selected_keys w,
    run-after_map (remove_entry k) f.selected_keys_data w,
    v.agree w,
  );
  own = λ w o e. ground (arith, run-after_map (remove_entry k) f.selected_keys_data w, v.own w o);
}

edit_options-IsForm :
    (g : DisplayOptions → DisplayOptions) (k : Text) (f : Form)
    → ((o : DisplayOptions) → (g o).key ≡ o.key)
    → IsForm f
    → IsForm (edit_options g k f)
unfolding edit_options
edit_options-IsForm g k f keeps v = go (Maps.get f.selected_keys_data.entries k) refl
  where
    go :
        (found : Option DisplayOptions)
        → Maps.get f.selected_keys_data.entries k ≡ found
        → IsForm (change_options g found k f)
    go none e = v
    go (some o) e = record {
      agree = λ w.
          ground (arith, run-after_map (modify_entry k (g o)) f.selected_keys_data w, v.agree w);
      own = λ w p h. ground (
        arith,
        run-after_map (modify_entry k (g o)) f.selected_keys_data w,
        v.own w p,
        v.own k o,
        keeps o,
        same_list_iff k w,
      );
    }

reset-IsForm : (f : Form) → IsForm (reset f)
reset-IsForm f = record {
  agree = λ w. ground (
    arith,
    run-after_set clear_values f.selected_keys w,
    run-after_map clear_entries f.selected_keys_data w,
  );
  own = λ w o e. ground (arith, run-after_map clear_entries f.selected_keys_data w);
}

-- If the keys that are selected are those that have options, and the options of a key name it,
-- then they are so after every action of the form.
pub act-IsForm : (action : FormAction) (f : Form) → IsForm f → IsForm (act action f)
unfolding act press_done press_cancel
act-IsForm (selects k) f v = select_key-IsForm k f v
act-IsForm (unselects k) f v = unselect_key-IsForm k f v
act-IsForm (labels k t) f v = edit_options-IsForm (set_label t) k f (λ o. refl) v
act-IsForm (colours k t) f v = edit_options-IsForm (set_color t) k f (λ o. refl) v
act-IsForm (fills k) f v = edit_options-IsForm toggle_fill k f (λ o. refl) v
act-IsForm (dedicates k) f v = edit_options-IsForm toggle_dedicated_y k f (λ o. refl) v
act-IsForm (names t) f v = record { agree = v.agree; own = v.own }
act-IsForm (opens b) f v = record { agree = v.agree; own = v.own }
act-IsForm finishes f v = elim (Bool-cases (valid f)) [
  | inl good ↦ rw good (let r = reset-IsForm f in record { agree = r.agree; own = r.own })
  | inr bad ↦ rw bad v
]
act-IsForm cancels f v = reset-IsForm f
