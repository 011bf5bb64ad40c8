-- ===== src/Rdb/Shown.antt =====
-- RdbViewer.tsx: RdbKeyDisplay, which shows the selected key and watches it.
use mulex_fk.Prelude.{ℕ, ◌-◌, Bool, true, false, List, [], ◌∷◌, ◌++◌, if◌then◌else◌}
use mulex_fk.Prelude.Results.{Result, ok, throw}
use mulex_fk.Convert.Names.{TypeName}
use mulex_fk.Convert.Engine.{Engine, Text}
use mulex_fk.Convert.Encode.{MxGenericType}
use mulex_fk.Convert.Decode.{Output, astype, hexdump}
use mulex_fk.Utils.Texts.{split_on, last_piece, includes}

-- What it asks for: the type of a key, its value (for the display, or for a callback of `watch`), and to
-- watch it or not.
pub data Ask : Type 0 where
  metadata : (key : Text) → Ask
  value : (key : Text) → Ask
  watch unwatch : (key : Text) → Ask

-- The signals, the value that the effect last returned, `last_resolve`, and all that was asked for.
pub record KeyDisplay : Type 0 where
  pub selected : Text
  pub previous : Text
  pub is_active : Bool
  pub path : Text
  pub name : Text
  pub type_name : TypeName
  pub value : Text
  pub size : ℕ
  pub raw : List (ℕ × ℕ)
  pub is_array : Bool
  pub last_resolve : Bool
  pub asked : List Ask

abbrev pub is_full : Text → Bool
is_full [] = false
is_full (c ∷ t) = true

abbrev pub asks : List Ask → KeyDisplay → KeyDisplay
asks more s = record s { asked = s.asked ++ more }

-- `pieces.slice(0, -1).join('/')`
unfoldable pub join_but_last : List Text → Text
join_but_last [] = []
join_but_last (piece ∷ []) = []
join_but_last (piece ∷ last ∷ []) = piece
join_but_last (piece ∷ next ∷ third ∷ pieces) =
    piece ++ (b'/' ∷ join_but_last (next ∷ third ∷ pieces))

abbrev pub leave : Text → KeyDisplay → KeyDisplay
leave [] s = s
leave (c ∷ t) s = asks (unwatch (c ∷ t) ∷ []) s

abbrev pub enter : Text → KeyDisplay → KeyDisplay
enter [] s = record s { previous = [] }
enter (c ∷ t) s = asks (metadata (c ∷ t) ∷ []) (record s {
  path = join_but_last (split_on b'/' (c ∷ t));
  name = last_piece (split_on b'/' (c ∷ t));
  previous = c ∷ t;
})

-- `setSelectedItem(key)` for a key that is not the selected one, and the effect that it starts.
unfoldable pub select : Text → KeyDisplay → KeyDisplay
unfolding join_but_last
select key s = enter key (leave s.previous (record s { selected = key; is_active = is_full key }))

-- The reply to the metadata, with the type that it says. What is asked for is the key that is selected
-- by now.
unfoldable pub on_metadata : TypeName → KeyDisplay → KeyDisplay
on_metadata type s =
    asks (value s.selected ∷ watch s.selected ∷ [])
      (record s { type_name = type; last_resolve = true })

module _ (E : Engine) (to_string : Output E.Float → Text) where
  abbrev shown_text : Result (Output E.Float) → Result Text
  shown_text (ok v) = ok (to_string v)
  shown_text (throw e) = throw e

  -- The reply to the value; `type` is the `ktype` of the callback. Nothing is set after an exception.
  unfoldable pub on_value : TypeName → MxGenericType → KeyDisplay → Result KeyDisplay
  unfolding includes
  on_value type res s = elim (shown_text (astype E res type)) [
    | throw e ↦ throw e
    | ok t ↦ ok (record s {
      size = res.bytes.byte_length - 8;
      value = t;
      is_array = includes (b',' ∷ []) t;
      raw = hexdump res;
    })
  ]

  -- The callback of `watch`, while no value that it asked for is under way.
  unfoldable pub on_update : (key : Text) → KeyDisplay → KeyDisplay
  on_update key s =
      if s.last_resolve then asks (value key ∷ []) (record s { last_resolve = false }) else s

  -- The reply to the value that the callback asked for.
  unfoldable pub on_updated : TypeName → MxGenericType → KeyDisplay → Result KeyDisplay
  on_updated type res s = elim (shown_text (astype E res type)) [
    | throw e ↦ throw e
    | ok t ↦ ok (record s { value = t; raw = hexdump res; last_resolve = true })
  ]
