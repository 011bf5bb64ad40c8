-- ===== src/Upload/Dropping.antt =====
-- FileDropUpload.tsx: checkExtension, checkSize and onDrop.
use mulex_fk.Prelude.{
  ℕ, suc, Bool, true, false, ◌&&◌, ◌||◌, Option, none, some, List, [], ◌∷◌, ◌++◌, length, ltb, leb,
  ◌==◌, if◌then◌else◌,
}
use mulex_fk.Prelude.Keys.{number_key, list_key, same_list}
use mulex_fk.Prelude.Literals.{units}
use mulex_fk.Convert.Engine.{Text}
use mulex_fk.Stores.Maps
use mulex_fk.Stores.Maps.{MapStore, add_or_modify_entry}
use mulex_fk.Utils.Texts.{split_on, last_piece}
use mulex_fk.Upload.Sending.{File}

-- The properties that the choice goes by; `max_size` is 0 if there is none.
pub record DropProps : Type 0 where
  pub allowed_extensions : Option (List Text)
  pub limit : ℕ
  pub max_size : ℕ

pub record DropState : Type 0 where
  pub dragging : Bool
  pub files : MapStore Text File
  pub error_msg : Text

-- `props.limit || 1000`
abbrev pub limit_of : DropProps → ℕ
limit_of props = if props.limit == 0 then 1000 else props.limit

-- The effect on `files` sets it.
abbrev pub allow_files : DropProps → DropState → Bool
allow_files props s = ltb (length s.files.entries) (limit_of props)

unfoldable pub includes_text : List Text → Text → Bool
includes_text [] t = false
includes_text (u ∷ texts) t = same_list u t || includes_text texts t

abbrev pub is_full : Text → Bool
is_full [] = false
is_full (c ∷ t) = true

-- `to_lower` is String.toLowerCase.
module _ (to_lower : Text → Text) (props : DropProps) where
  abbrev pub good_extension : Option (List Text) → File → Bool
  good_extension none file = true
  good_extension (some allowed) file =
      let ext = last_piece (split_on b'.' file.name) in
      is_full ext && includes_text allowed (to_lower ext)

  -- The message that a refused file leaves, which is cleared after 5 seconds.
  abbrev pub refuse : File → Text → DropState → DropState
  refuse file why s = record s { error_msg = units "Cannot upload " ++ (file.name ++ why) }

  -- Each answers, and sets the message where it refuses.
  unfoldable pub check_extension : File → DropState → Bool × DropState
  unfolding includes_text
  check_extension file s =
      if good_extension props.allowed_extensions file
      then (true, s)
      else (false, refuse file (units " (invalid extension).") s)

  unfoldable pub check_size : File → DropState → Bool × DropState
  check_size file s =
      if props.max_size == 0 || leb (length file.bytes) props.max_size
      then (true, s)
      else (false, refuse file (units " (too large).") s)

  abbrev pub keep_if : File → Bool × DropState → DropState
  keep_if file (true, s) = record s {
    files = Maps.run (add_or_modify_entry file.name file) s.files;
  }
  keep_if file (false, s) = s

  abbrev pub then_size : File → Bool × DropState → Bool × DropState
  then_size file (true, s) = check_size file s
  then_size file (false, s) = (false, s)

  -- The round for the file at `idx`.
  abbrev pub drop_file : File → ℕ → DropState → DropState
  drop_file file idx s =
      if ltb idx (limit_of props) then keep_if file (then_size file (check_extension file s)) else s

  unfoldable pub drop_files : List File → ℕ → DropState → DropState
  drop_files [] idx s = s
  drop_files (file ∷ files) idx s = drop_files files (suc idx) (drop_file file idx s)

  unfoldable pub on_drop : List File → DropState → DropState
  unfolding drop_files
  on_drop dropped s =
      let s' = record s { dragging = false } in
      if allow_files props s' then drop_files dropped 0 s' else s'
