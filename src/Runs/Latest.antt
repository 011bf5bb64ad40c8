-- ===== src/Runs/Latest.antt =====
-- RunViewer.tsx: the versions of a file that the display of the last ones keeps.
use mulex_fk.Prelude.{
  ◌≢◌, true, false, ◌≡◌, refl, sym, ◌∙◌, ap, arith, All, some, List, [], ◌∷◌, Bool-cases, inl, inr,
  if◌then◌else◌, Option-cases,
}
use mulex_fk.Prelude.Keys.{number_key, list_key, same_list_iff, same_list}
use mathlib.Core.List.{Mem, mem-cons_self, mem-cons_of_mem}
use mulex_fk.Convert.Engine.{Text}
use mulex_fk.Stores.Maps
use mulex_fk.Stores.MapLaws.{get-put, get-put_self}
use mulex_fk.Runs.Files.{RunLogFile, text_gt, is_newer, keep_latest}

text_gt_irrefl : (a : Text) → text_gt a a ≡ false
unfolding text_gt
text_gt_irrefl [] = refl
text_gt_irrefl (x ∷ a) = ground (arith, text_gt_irrefl a)

-- What is not later than a text is not later than one that is.
text_gt_trans : (a b c : Text) → text_gt a b ≡ false → text_gt c b ≡ true → text_gt a c ≡ false
unfolding text_gt
text_gt_trans [] b c h k = refl
text_gt_trans (x ∷ a) [] c h k = cc
text_gt_trans (x ∷ a) (y ∷ b) [] h k = cc
text_gt_trans (x ∷ a) (y ∷ b) (z ∷ c) h k = ground (arith, text_gt_trans a b c)

-- A file is kept under its alias that is at least as late.
abbrev pub Covers : List (Text × RunLogFile) → RunLogFile → Type 0
Covers exist_map file =
    (kept : RunLogFile) × (Maps.get exist_map file.alias ≡ some kept)
    × (kept.alias ≡ file.alias)
    × (text_gt file.timestamp kept.timestamp ≡ false)

-- The files are kept under their aliases.
abbrev pub IsOwn : List (Text × RunLogFile) → Type 0
IsOwn exist_map = (a : Text) (kept : RunLogFile) → Maps.get exist_map a ≡ some kept → kept.alias ≡ a

-- A round of the loop.
abbrev round : RunLogFile → List (Text × RunLogFile) → List (Text × RunLogFile)
round file exist_map =
    if is_newer file (Maps.get exist_map file.alias)
    then Maps.put exist_map file.alias file
    else exist_map

module _ (file : RunLogFile) (exist_map : List (Text × RunLogFile)) (own : IsOwn exist_map) where
  put-IsOwn : IsOwn (Maps.put exist_map file.alias file)
  put-IsOwn a kept h = elim (Bool-cases (same_list file.alias a)) [
    | inl here ↦
        let e : some file ≡ some kept =
          sym (get-put exist_map file.alias file a ∙ rw here refl) ∙ h in
        let same : file ≡ kept = cc in rw (← same) ((same_list_iff file.alias a).0 here)
    | inr there ↦ own a kept (sym (get-put exist_map file.alias file a ∙ rw there refl) ∙ h)
  ]

  round-IsOwn : IsOwn (round file exist_map)
  round-IsOwn = elim (Bool-cases (is_newer file (Maps.get exist_map file.alias))) [
    | inl newer ↦ rw newer put-IsOwn
    | inr older ↦ rw older own
  ]

  round-Covers_new : Covers (round file exist_map) file
  round-Covers_new = elim (Bool-cases (is_newer file (Maps.get exist_map file.alias))) [
    | inl newer ↦
        rw newer (file, get-put_self exist_map file.alias file, refl, text_gt_irrefl file.timestamp)
    | inr older ↦ elim (Option-cases (Maps.get exist_map file.alias)) [
      | inl unknown ↦ absurd (
          let e : is_newer file (Maps.get exist_map file.alias) ≡ true =
            ap (is_newer file) unknown in
          cc)
      | inr (kept, known) ↦
          rw older (kept, known, own file.alias kept known, sym (ap (is_newer file) known) ∙ older)
    ]
  ]

  round-Covers_old : (g : RunLogFile) → Covers exist_map g → Covers (round file exist_map) g
  round-Covers_old g (kept, known, named, late) =
      elim (Bool-cases (is_newer file (Maps.get exist_map file.alias))) [
        | inr older ↦ rw older (kept, known, named, late)
        | inl newer ↦ elim (Bool-cases (same_list file.alias g.alias)) [
          | inl here ↦
              let same : file.alias ≡ g.alias = (same_list_iff file.alias g.alias).0 here in
              let held : Maps.get exist_map file.alias ≡ some kept = rw same known in
              let later : text_gt file.timestamp kept.timestamp ≡ true =
                sym (ap (is_newer file) held) ∙ newer in
              rw newer (
                file,
                get-put exist_map file.alias file g.alias ∙ rw here refl,
                same,
                text_gt_trans g.timestamp kept.timestamp file.timestamp late later,
              )
          | inr there ↦
              rw newer
                (kept, get-put exist_map file.alias file g.alias ∙ rw there known, named, late)
        ]
      ]

keep_latest-old :
    (files : List RunLogFile) (exist_map : List (Text × RunLogFile)) (g : RunLogFile)
    → IsOwn exist_map
    → Covers exist_map g
    → Covers (keep_latest files exist_map) g
unfolding keep_latest
keep_latest-old [] exist_map g own covered = covered
keep_latest-old (file ∷ files) exist_map g own covered =
    keep_latest-old files (round file exist_map) g (round-IsOwn file exist_map own)
      (round-Covers_old file exist_map own g covered)

keep_latest-All :
    (files : List RunLogFile) (exist_map : List (Text × RunLogFile))
    → IsOwn exist_map
    → All (Covers (keep_latest files exist_map)) files
unfolding keep_latest
keep_latest-All [] exist_map own = tt
keep_latest-All (file ∷ files) exist_map own = (
  keep_latest-old files (round file exist_map) file (round-IsOwn file exist_map own)
      (round-Covers_new file exist_map own),
  keep_latest-All files (round file exist_map) (round-IsOwn file exist_map own),
)

-- What holds of the files holds of those that are kept.
module _ (P : RunLogFile → Type 0) where
  round-from :
      (file : RunLogFile) (exist_map : List (Text × RunLogFile))
      → P file
      → ((a : Text) (kept : RunLogFile) → Maps.get exist_map a ≡ some kept → P kept)
      → (a : Text) (kept : RunLogFile) → Maps.get (round file exist_map) a ≡ some kept
      → P kept
  round-from file exist_map holds before a kept h =
      elim (Bool-cases (is_newer file (Maps.get exist_map file.alias))) [
        | inr older ↦ before a kept (rw older at h)
        | inl newer ↦
            let h' : Maps.get (Maps.put exist_map file.alias file) a ≡ some kept = rw newer at h in
            elim (Bool-cases (same_list file.alias a)) [
              | inl here ↦
                  let e : some file ≡ some kept =
                    sym (get-put exist_map file.alias file a ∙ rw here refl) ∙ h' in
                  let same : file ≡ kept = cc in rw (← same) holds
              | inr there ↦
                  before a kept (sym (get-put exist_map file.alias file a ∙ rw there refl) ∙ h')
            ]
      ]

  keep_latest-from :
      (files : List RunLogFile) (exist_map : List (Text × RunLogFile))
      → ((file : RunLogFile) → Mem file files → P file)
      → ((a : Text) (kept : RunLogFile) → Maps.get exist_map a ≡ some kept → P kept)
      → (a : Text) (kept : RunLogFile) → Maps.get (keep_latest files exist_map) a ≡ some kept
      → P kept
  unfolding keep_latest
  keep_latest-from [] exist_map all before a kept h = before a kept h
  keep_latest-from (file ∷ files) exist_map all before a kept h =
      keep_latest-from files (round file exist_map) (λ g m. all g (mem-cons_of_mem file m))
        (round-from file exist_map (all file mem-cons_self) before) a kept h

get-nil : (a : Text) (kept : RunLogFile) → Maps.get {V = RunLogFile} [] a ≢ some kept
unfolding Maps.get
get-nil a kept h = cc

-- For each file of a backend, the display of the last versions keeps one of the same alias whose
-- timestamp is not earlier; and it keeps files of the backend only.
pub keep_latest-Covers :
    (files : List RunLogFile)
    → All (Covers (keep_latest files [])) files
      × ((a : Text) (kept : RunLogFile)
          → Maps.get (keep_latest files []) a ≡ some kept
          → Mem kept files)
keep_latest-Covers files = (
  keep_latest-All files [] (λ a kept h. absurd (get-nil a kept h)),
  keep_latest-from (λ kept. Mem kept files) files [] (λ file m. m)
      (λ a kept h. absurd (get-nil a kept h)),
)
