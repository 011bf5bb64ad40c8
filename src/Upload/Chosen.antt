-- ===== src/Upload/Chosen.antt =====
-- FileDropUpload.tsx: the files that are kept for the upload.
use mulex_fk.Prelude.{
  ℕ, suc, ◌+◌, ◌*◌, ◌-◌, ◌≤◌, ◌<◌, ◌≡◌, refl, ap, sym, ◌∙◌, Bool, true, false, ◌||◌, arith, some,
  List, [], ◌∷◌, length, ltb, leb, ltb→lt, ◌==◌, Bool-cases, inl, inr,
}
use mulex_fk.Prelude.Keys.{number_key, list_key, same_list}
use mulex_fk.Convert.Engine.{Text}
use mulex_fk.Stores.Maps
use mulex_fk.Stores.Maps.{add_or_modify_entry}
use mulex_fk.Stores.MapLaws.{get-put}
use mulex_fk.Upload.Sending.{File}
use mulex_fk.Upload.Extensions.{HasExtension, good_extension-HasExtension}
use mulex_fk.Upload.Dropping.{
  DropProps, DropState, limit_of, good_extension, check_extension, check_size, drop_file,
  drop_files, on_drop,
}

length-put : (m : List (Text × File)) (k : Text) (v : File) → length (Maps.put m k v) ≤ length m + 1
unfolding Maps.put
length-put [] k v = omega arith
length-put ((j, w) ∷ m) k v = elim (Bool-cases (same_list j k)) [
  | inl same ↦ rw same (omega arith)
  | inr other ↦ rw other (omega (arith, length-put m k v))
]

module _ (to_lower : Text → Text) (props : DropProps) where
  abbrev pub fits_size : File → Bool
  fits_size file = props.max_size == 0 || leb (length file.bytes) props.max_size

  -- The files are of the kinds that are asked for.
  abbrev pub IsGood : List (Text × File) → Type 0
  IsGood files =
      (name : Text) (file : File)
      → Maps.get files name ≡ some file
      → HasExtension to_lower props.allowed_extensions file × (fits_size file ≡ true)

  IsGood-put :
      (files : List (Text × File)) (file : File)
      → IsGood files
      → HasExtension to_lower props.allowed_extensions file
      → fits_size file ≡ true
      → IsGood (Maps.put files file.name file)
  IsGood-put files file good ext size name found h = elim (Bool-cases (same_list file.name name)) [
    | inl here ↦
        let e : some file ≡ some found =
          sym (get-put files file.name file name ∙ rw here refl) ∙ h in
        let same : file ≡ found = cc in rw (← same) (ext, size)
    | inr there ↦ good name found (sym (get-put files file.name file name ∙ rw there refl) ∙ h)
  ]

  -- What a file adds: it is of the kind, or the files are as they were.
  abbrev Grows : DropState → DropState → Type 0
  Grows s s' = IsGood s'.files.entries × (length s'.files.entries ≤ length s.files.entries + 1)

  drop_file-Grows :
      (file : File) (idx : ℕ) (s : DropState)
      → IsGood s.files.entries
      → Grows s (drop_file to_lower props file idx s)
  unfolding check_extension check_size Maps.run Maps.add_or_modify
  drop_file-Grows file idx s good = elim (Bool-cases (ltb idx (limit_of props))) [
    | inr over ↦ rw over (good, omega arith)
    | inl within ↦ elim (Bool-cases (good_extension to_lower props props.allowed_extensions file)) [
      | inr bad ↦ rw (within, bad) (good, omega arith)
      | inl ext ↦ elim (Bool-cases (fits_size file)) [
        | inr large ↦ rw (within, ext, large) (good, omega arith)
        | inl size ↦
            let has =
              good_extension-HasExtension to_lower props props.allowed_extensions file ext in
            rw (within, ext, size)
              (
                IsGood-put s.files.entries file good has size,
                length-put s.files.entries file.name file,
              )
      ]
    ]
  ]

  drop_file-over :
      (file : File) (idx : ℕ) (s : DropState)
      → limit_of props ≤ idx
      → drop_file to_lower props file idx s ≡ s
  drop_file-over file idx s h =
      let over : ltb idx (limit_of props) ≡ false = ground arith in rw over refl

  drop_files-IsGood :
      (files : List File) (idx : ℕ) (s : DropState)
      → IsGood s.files.entries
      → IsGood (drop_files to_lower props files idx s).files.entries
        × (length (drop_files to_lower props files idx s).files.entries
            ≤ length s.files.entries + (limit_of props - idx))
  unfolding drop_files
  drop_files-IsGood [] idx s good = (good, omega arith)
  drop_files-IsGood (file ∷ files) idx s good =
      let (good', grown) = drop_file-Grows file idx s good in
      let (all_good, bound) =
        drop_files-IsGood files (suc idx) (drop_file to_lower props file idx s) good' in
      elim (Bool-cases (ltb idx (limit_of props))) [
        | inl within ↦ (all_good, omega (arith, bound, grown, ltb→lt idx (limit_of props) within))
        | inr over ↦
            let h : limit_of props ≤ idx = ground arith in
            let same = drop_file-over file idx s h in
            (all_good, omega (arith, bound, ap (λ t. length t.files.entries) same))
      ]

  -- What onDrop keeps: the files are of the kinds that are asked for, and fewer than twice the limit.
  abbrev pub IsChosen : DropState → Type 0
  IsChosen s = IsGood s.files.entries × (length s.files.entries < 2 * limit_of props)

  -- If the files that are kept are of an allowed extension and size, and fewer than twice the
  -- limit (1000 if none is set), then they are so after any files are dropped: the limit is looked
  -- at before a drop, and then bounds what that drop may add. An extension, which is what stands
  -- behind the last dot of a name or all of it, is allowed if there are no extensions to choose
  -- from, or if it is not empty and among them in small letters.
  pub on_drop-IsChosen :
      (dropped : List File) (s : DropState)
      → IsChosen s
      → IsChosen (on_drop to_lower props dropped s)
  unfolding on_drop
  on_drop-IsChosen dropped s (good, few) =
      let (all_good, bound) = drop_files-IsGood dropped 0 (record s { dragging = false }) good in
      elim (Bool-cases (ltb (length s.files.entries) (limit_of props))) [
        | inl allowed ↦ rw allowed (
          all_good,
          omega (arith, bound, ltb→lt (length s.files.entries) (limit_of props) allowed),
        )
        | inr refused ↦ rw refused (good, few)
      ]
