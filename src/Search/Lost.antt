-- ===== src/Search/Lost.antt =====
-- SearchBar.tsx: a query that is typed while another is under way.
use mulex_fk.Prelude.{
  ℕ, arith, false, length, ◌==◌, ◌≡◌, refl, ap, true, none, List, [], ◌∷◌, get_elem?,
}
use mulex_fk.Convert.Engine.{Text}
use mulex_fk.Search.Bar.{
  ServerSearch, query_effect, handle_input_event, on_timer, on_count, Turn, fires, answers, turn,
  Follows, here, next,
}

-- No timer is set, and this is what there is to ask and was asked.
abbrev IsIdle : Text → List Text → ServerSearch → Type 0
IsIdle q asked s = (s.timers ≡ []) × (s.query ≡ q) × (s.asked ≡ asked)

turn-IsIdle :
    (q : Text) (asked : List Text) (e : Turn) (s : ServerSearch)
    → IsIdle q asked s
    → IsIdle q asked (turn e s)
unfolding turn on_timer on_count
turn-IsIdle q asked (fires i) s (a, b, c) =
    let none_set : get_elem? s.timers i ≡ none = ap (λ ts. get_elem? ts i) a in
    rw none_set (a, b, c)
turn-IsIdle q asked (answers count) s (a, b, c) = (a, b, c)

Follows-IsIdle :
    (q : Text) (asked : List Text) {s t : ServerSearch}
    → Follows s t
    → IsIdle q asked s
    → IsIdle q asked t
Follows-IsIdle q asked here idle = idle
Follows-IsIdle q asked (next steps e) idle =
    turn-IsIdle q asked e _ (Follows-IsIdle q asked steps idle)

-- A text that is typed while a query is under way and no timer is set is never asked for, whatever timers
-- and answers follow, as long as nothing more is typed, although it stays in the field.
pub typed-lost :
    (c : ℕ) (text : Text) (s : ServerSearch) {t : ServerSearch}
    → s.is_working ≡ true
    → s.timers ≡ []
    → Follows (handle_input_event (c ∷ text) s) t
    → (t.query ≡ c ∷ text) × (t.asked ≡ s.asked)
unfolding handle_input_event query_effect
typed-lost c text s working unset steps =
    let filled : (length (c ∷ text) == 0) ≡ false = ground arith in
    let (a, b, d) =
      Follows-IsIdle (c ∷ text) s.asked steps (rw (filled, working) (unset, refl, refl)) in
    (b, d)
