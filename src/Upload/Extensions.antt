-- ===== src/Upload/Extensions.antt =====
-- FileDropUpload.tsx: the files whose extension checkExtension allows.
use mulex_fk.Prelude.{
  ℕ, ◌==◌, ◌≡◌, ◌≢◌, refl, ap, Bool, true, false, Bool-cases, inl, inr, ◌⊎◌, ◌&&◌, Option, none,
  some, List, [], ◌∷◌, ◌++◌, All, ==_iff,
}
use mathlib.Core.List.{Mem, mem-cons_self, mem-cons_of_mem}
use mulex_fk.Prelude.Keys.{number_key, same_list, same_list_iff}
use mulex_fk.Convert.Engine.{Text}
use mulex_fk.Utils.Texts.{on_head, split_on, last_piece}
use mulex_fk.Upload.Sending.{File}
use mulex_fk.Upload.Dropping.{DropProps, includes_text, is_full, good_extension}

abbrev pub Avoids : ℕ → Text → Type 0
Avoids separator t = All (λ c. (c == separator) ≡ false) t

module _ (separator : ℕ) where
  -- What the pieces of a text are, as far as the last of them goes.
  abbrev AreCut : Text → List Text → Type 0
  AreCut t [] = ⊥
  AreCut t (piece ∷ []) = (t ≡ piece) × Avoids separator piece
  AreCut t (piece ∷ next ∷ pieces) =
      (base : Text) × (t ≡ base ++ (separator ∷ last_piece (next ∷ pieces)))
      × Avoids separator (last_piece (next ∷ pieces))

  on_head-AreCut :
      (c : ℕ) (t : Text) (pieces : List Text)
      → (c == separator) ≡ false
      → AreCut t pieces
      → AreCut (c ∷ t) (on_head c pieces)
  on_head-AreCut c t [] apart h = absurd h
  on_head-AreCut c t (piece ∷ []) apart (e, avoids) = (ap (λ x. c ∷ x) e, (apart, avoids))
  on_head-AreCut c t (piece ∷ next ∷ pieces) apart (base, e, avoids) =
      (c ∷ base, ap (λ x. c ∷ x) e, avoids)

  cut-AreCut :
      (c : ℕ) (t : Text) (pieces : List Text)
      → c ≡ separator
      → AreCut t pieces
      → AreCut (c ∷ t) ([] ∷ pieces)
  unfolding last_piece
  cut-AreCut c t [] here h = absurd h
  cut-AreCut c t (piece ∷ []) here (e, avoids) = ([], cc, avoids)
  cut-AreCut c t (piece ∷ next ∷ pieces) here (base, e, avoids) =
      (c ∷ base, ap (λ x. c ∷ x) e, avoids)

  split_on-AreCut : (t : Text) → AreCut t (split_on separator t)
  unfolding split_on
  split_on-AreCut [] = (refl, tt)
  split_on-AreCut (c ∷ t) = elim (Bool-cases (c == separator)) [
    | inl same ↦
        let here : c ≡ separator = (==_iff c separator).0 same in
        rw same (cut-AreCut c t (split_on separator t) here (split_on-AreCut t))
    | inr apart ↦ rw apart (on_head-AreCut c t (split_on separator t) apart (split_on-AreCut t))
  ]

  -- What stands behind the last separator, or the whole text if there is none.
  abbrev pub IsBehind : Text → Text → Type 0
  IsBehind t end =
      Avoids separator end × ((t ≡ end) ⊎ ((base : Text) × (t ≡ base ++ (separator ∷ end))))

  AreCut-IsBehind :
      (t : Text) (pieces : List Text) → AreCut t pieces → IsBehind t (last_piece pieces)
  unfolding last_piece
  AreCut-IsBehind t [] h = absurd h
  AreCut-IsBehind t (piece ∷ []) (e, avoids) = (avoids, inl e)
  AreCut-IsBehind t (piece ∷ next ∷ pieces) (base, e, avoids) = (avoids, inr (base, e))

includes_text-Mem : (texts : List Text) (t : Text) → includes_text texts t ≡ true → Mem t texts
unfolding includes_text
includes_text-Mem [] t h = absurd cc
includes_text-Mem (u ∷ texts) t h = elim (Bool-cases (same_list u t)) [
  | inl here ↦ let same : u ≡ t = (same_list_iff u t).0 here in rw same mem-cons_self
  | inr other ↦ mem-cons_of_mem u (includes_text-Mem texts t (rw other at h))
]

module _ (to_lower : Text → Text) where
  -- The text behind the last dot of the file's name is not empty, and in small letters it is among the
  -- extensions, where there are any to choose from.
  abbrev pub HasExtension : Option (List Text) → File → Type 0
  HasExtension none file = Unit {0}
  HasExtension (some allowed) file =
      (end : Text) × IsBehind b'.' file.name end × (end ≢ []) × Mem (to_lower end) allowed

  full-ne : (t : Text) → is_full t ≡ true → t ≢ []
  full-ne [] h = absurd cc
  full-ne (c ∷ t) h = λ e. cc

  pub good_extension-HasExtension :
      (props : DropProps) (allowed : Option (List Text)) (file : File)
      → good_extension to_lower props allowed file ≡ true
      → HasExtension allowed file
  good_extension-HasExtension props none file h = tt
  good_extension-HasExtension props (some allowed) file h =
      let end : Text = last_piece (split_on b'.' file.name) in
      let (full, listed) = both (is_full end) (includes_text allowed (to_lower end)) h in
      (
        end,
        AreCut-IsBehind b'.' file.name (split_on b'.' file.name) (split_on-AreCut b'.' file.name),
        full-ne end full,
        includes_text-Mem allowed (to_lower end) listed,
      )
    where
      both : (a b : Bool) → (a && b) ≡ true → (a ≡ true) × (b ≡ true)
      both true b h = (refl, h)
      both false b h = absurd cc
