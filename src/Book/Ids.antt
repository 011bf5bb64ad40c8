-- ===== src/Book/Ids.antt =====
-- LogBook.tsx: the ids of the attachments.
use mulex_fk.Prelude.{
  ℕ, suc, ◌≤◌, ◌≡◌, refl, ap, false, Option, none, some, List, [], ◌∷◌, map, All, All-append, arith,
  Bool-cases, inl, inr,
}
use mathlib.Core.List.{map-append}
use mulex_fk.Prelude.Keys.{number_key, ◌==◌}
use mulex_fk.Prelude.Results.{Result, ok, throw}
use mulex_fk.Convert.Names.{native}
use mulex_fk.Convert.Engine.{Engine, Text}
use mulex_fk.Convert.Encode.{MxGenericType, str512}
use mulex_fk.Stores.Sets
use mulex_fk.Stores.SetLaws.{IsDistinct, IsDistinct-append, IsDistinct-delete}
use mulex_fk.Calls.Jobs.{rpc, launch, modify, attempt, ◌>>=◌}
use mulex_fk.Calls.Servers.{Server, run}
use mulex_fk.Book.Drafts.{
  FileHandler, Draft, without, drop_item, find_file, handle_of, forget_file, delete_file, on_drop,
}

abbrev pub ids : List FileHandler → List ℕ
ids files = map (λ file. file.id) files

-- The attachments have ids of their own, none beyond `fid`.
pub record IsNumbered (d : Draft) : Type 0 where
  pub distinct : IsDistinct (ids d.files)
  pub issued : All (λ file. file.id ≤ d.fid) d.files

new_id :
    (n : ℕ) (files : List FileHandler)
    → All (λ file. file.id ≤ n) files
    → Sets.has (ids files) (suc n) ≡ false
unfolding Sets.has
new_id n [] h = refl
new_id n (file ∷ files) (h, hs) = ground (arith, new_id n files hs)

raised :
    (n : ℕ) (files : List FileHandler)
    → All (λ file. file.id ≤ n) files
    → All (λ file. file.id ≤ suc n) files
raised n [] h = tt
raised n (file ∷ files) (h, hs) = (omega arith, raised n files hs)

without-issued :
    (id n : ℕ) (files : List FileHandler)
    → All (λ file. file.id ≤ n) files
    → All (λ file. file.id ≤ n) (without id files)
unfolding without
without-issued id n [] h = tt
without-issued id n (file ∷ files) (h, hs) = elim (Bool-cases (file.id == id)) [
  | inl same ↦ rw same (without-issued id n files hs)
  | inr other ↦ rw other (h, without-issued id n files hs)
]

ids-without :
    (id : ℕ) (files : List FileHandler) → ids (without id files) ≡ Sets.delete (ids files) id
unfolding without Sets.delete
ids-without id [] = refl
ids-without id (file ∷ files) = elim (Bool-cases (file.id == id)) [
  | inl same ↦ rw same (ids-without id files)
  | inr other ↦ rw other (ap (λ t. file.id ∷ t) (ids-without id files))
]

drop_item-IsNumbered : (id : ℕ) (d : Draft) → IsNumbered d → IsNumbered (drop_item id d)
drop_item-IsNumbered id d v = record {
  distinct = rw (ids-without id d.files) (IsDistinct-delete (ids d.files) id v.distinct);
  issued = without-issued id d.fid d.files v.issued;
}

pub on_drop-IsNumbered :
    (names : List Text) (d : Draft) → IsNumbered d → IsNumbered (on_drop names d)
unfolding on_drop
on_drop-IsNumbered [] d v = v
on_drop-IsNumbered (name ∷ names) d v = on_drop-IsNumbered names _ (record {
  distinct =
      rw (map-append (λ file. file.id) d.files _)
        (IsDistinct-append (ids d.files) (suc d.fid) (new_id d.fid d.files v.issued) v.distinct);
  issued =
      All-append (λ file. file.id ≤ suc d.fid) d.files _ (raised d.fid d.files v.issued)
        (omega arith, tt);
})

module _ (E : Engine) (server : Server) (id : ℕ) (d : Draft) (w : server.State)
    (v : IsNumbered d) where
  forget_file-IsNumbered :
      (handle : Option Text)
      → IsNumbered (run server (forget_file E handle >>= λ _. modify (drop_item id)) d w).state
  unfolding run
  forget_file-IsNumbered none = drop_item-IsNumbered id d v
  forget_file-IsNumbered (some []) = drop_item-IsNumbered id d v
  forget_file-IsNumbered (some (c ∷ t)) = go (str512 E (c ∷ t) native)
    where
      go :
          (r : Result MxGenericType)
          → IsNumbered
              (run server
                ((attempt r >>= λ to. launch (rpc "mulex::FdbDeleteFile" (to ∷ []) native)) >>= λ _.
                  modify (drop_item id))
                d
                w).state
      go (ok to) = drop_item-IsNumbered id d v
      go (throw e) = v

pub delete_file-IsNumbered :
    (E : Engine) (server : Server) (id : ℕ) (d : Draft) (w : server.State)
    → IsNumbered d
    → IsNumbered (run server (delete_file E id) d w).state
unfolding run delete_file
delete_file-IsNumbered E server id d w v =
    forget_file-IsNumbered E server id d w v (handle_of E (find_file id d.files))
