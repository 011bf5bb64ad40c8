-- ===== src/Search/Bar.antt =====
-- SearchBar.tsx: getFilteredItems with its effect, and SearchBarServerSide.
use mulex_fk.Prelude.{
  ℕ, suc, Bool, true, false, not, Option, none, some, List, [], ◌∷◌, ◌++◌, length, take, drop,
  get_elem?, ◌==◌, if◌then◌else◌,
}
use mulex_fk.Convert.Engine.{Text}
use mulex_fk.Utils.Texts.{includes}

unfoldable pub matching : Text → List Text → List Text
unfolding includes
matching query [] = []
matching query (item ∷ items) =
    if includes query item then item ∷ matching query items else matching query items

unfoldable pub get_filtered_items : Text → List Text → List Text
unfolding matching
get_filtered_items [] items = []
get_filtered_items (c ∷ query) items = matching (c ∷ query) items

-- `flen` and `filteredItems` after the effect; `dropdown` is `props.dropdown ?? true`.
unfoldable pub filter_effect : (dropdown : Bool) → Text → List Text → List Text → ℕ × List Text
unfolding get_filtered_items
filter_effect dropdown [] items filtered = (0, if dropdown then filtered else items)
filter_effect dropdown (c ∷ query) items filtered =
    let found = get_filtered_items (c ∷ query) items in (length found, found)

-- The signals of SearchBarServerSide, the timers that are set (with their qlength), and what queryFunc
-- has been asked.
pub record ServerSearch : Type 0 where
  pub query : Text
  pub flen : ℕ
  pub is_working : Bool
  pub timers : List ℕ
  pub asked : List Text

-- The effect on a new query.
unfoldable pub query_effect : ServerSearch → ServerSearch
query_effect s =
    if length s.query == 0
    then record s { asked = s.asked ++ ([] ∷ []); is_working = false; flen = 0 }
    else if not s.is_working
    then record s { timers = s.timers ++ (length s.query ∷ []) }
    else record s { flen = 0 }

unfoldable pub handle_input_event : Text → ServerSearch → ServerSearch
unfolding query_effect
handle_input_event value s = query_effect (record s { query = value })

abbrev pub run_timer : Option ℕ → List ℕ → ServerSearch → ServerSearch
run_timer none rest s = s
run_timer (some qlength) rest s =
    if length s.query == qlength
    then record s { timers = rest; is_working = true; asked = s.asked ++ (s.query ∷ []) }
    else record s { timers = rest }

-- The timer that stands at `i` among those that are set.
unfoldable pub on_timer : ℕ → ServerSearch → ServerSearch
on_timer i s = run_timer (get_elem? s.timers i) (take i s.timers ++ drop (suc i) s.timers) s

-- An answer to queryFunc.
unfoldable pub on_count : ℕ → ServerSearch → ServerSearch
on_count count s = record s { is_working = false; flen = count }

-- What may happen while nothing is typed.
pub data Turn : Type 0 where
  fires : ℕ → Turn
  answers : ℕ → Turn

unfoldable pub turn : Turn → ServerSearch → ServerSearch
unfolding on_timer on_count
turn (fires i) s = on_timer i s
turn (answers count) s = on_count count s

pub data Follows (s : ServerSearch) : ServerSearch → Type 0 where
  here : Follows s s
  next : {t : ServerSearch} → Follows s t → (e : Turn) → Follows s (turn e t)
