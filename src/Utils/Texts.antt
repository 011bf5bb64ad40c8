-- ===== src/Utils/Texts.antt =====
-- JavaScript's operations on strings that the source uses: split, startsWith, endsWith, includes,
-- replace and replaceAll with a text for a pattern that is not empty, and extract_backend_name.
use mulex_fk.Prelude.{
  ℕ, Bool, true, false, ◌||◌, ◌&&◌, List, [], ◌∷◌, length, drop, reverse, ◌==◌, if◌then◌else◌,
}
use mulex_fk.Prelude.Literals.{units}
use mulex_fk.Convert.Engine.{Text}

abbrev pub on_head : ℕ → List Text → List Text
on_head c [] = []
on_head c (piece ∷ pieces) = (c ∷ piece) ∷ pieces

-- `text.split(separator)`, for one character.
unfoldable pub split_on : ℕ → Text → List Text
split_on separator [] = [] ∷ []
split_on separator (c ∷ t) =
    if c == separator then [] ∷ split_on separator t else on_head c (split_on separator t)

-- `.shift()` and `.pop()` on the pieces, of which there is always one.
abbrev pub first_piece : List Text → Text
first_piece [] = []
first_piece (piece ∷ pieces) = piece

unfoldable pub last_piece : List Text → Text
last_piece [] = []
last_piece (piece ∷ []) = piece
last_piece (piece ∷ next ∷ pieces) = last_piece (next ∷ pieces)

unfoldable pub starts_with : Text → Text → Bool
starts_with [] t = true
starts_with (p ∷ ps) [] = false
starts_with (p ∷ ps) (c ∷ t) = p == c && starts_with ps t

unfoldable pub ends_with : Text → Text → Bool
unfolding starts_with
ends_with p t = starts_with (reverse p) (reverse t)

unfoldable pub includes : Text → Text → Bool
unfolding starts_with
includes p [] = starts_with p []
includes p (c ∷ t) = starts_with p (c ∷ t) || includes p t

-- `text.replace(pattern, '')`
unfoldable pub remove_first : Text → Text → Text
unfolding starts_with
remove_first p [] = []
remove_first p (c ∷ t) =
    if starts_with p (c ∷ t) then drop (length p) (c ∷ t) else c ∷ remove_first p t

abbrev pub backends_prefix : Text
backends_prefix = units "/system/backends/"

unfoldable pub extract_backend_name : Text → Text
unfolding remove_first split_on
extract_backend_name key = first_piece (split_on b'/' (remove_first backends_prefix key))
