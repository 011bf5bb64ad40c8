-- ===== src/Stores/Sets.antt =====
-- rset.ts: createSetStore. A Set is the list of its values in the order of insertion.
use mulex_fk.Prelude.{Bool, false, not, ◌||◌, List, [], ◌∷◌, ◌++◌, if◌then◌else◌}
use mulex_fk.Prelude.Keys.{Key, ◌==◌}

-- `{ data: Set<T> }`
pub record SetStore {ℓ} (A : Type ℓ) : Type ℓ where
  pub values : List A

module _ {ℓ} {A : Type ℓ} ⦃e : Key A⦄ where
  -- Set.has, Set.add, Set.delete and `new Set(values)`
  unfoldable pub has : List A → A → Bool
  has [] v = false
  has (x ∷ xs) v = x == v || has xs v

  unfoldable pub insert : List A → A → List A
  unfolding has
  insert xs v = if has xs v then xs else xs ++ (v ∷ [])

  unfoldable pub delete : List A → A → List A
  delete [] v = []
  delete (x ∷ xs) v = if x == v then delete xs v else x ∷ delete xs v

  unfoldable pub insert_all : List A → List A → List A
  unfolding insert
  insert_all xs [] = xs
  insert_all xs (v ∷ vs) = insert_all (insert xs v) vs

  unfoldable pub of_values : List A → List A
  unfolding insert_all
  of_values vs = insert_all [] vs

  unfoldable pub create_set_store : List A → SetStore A
  unfolding of_values
  create_set_store values = record { values = of_values values }

  unfoldable pub add : A → SetStore A → SetStore A
  unfolding insert
  add value store =
      if not (has store.values value) then record { values = insert store.values value } else store

  unfoldable pub remove : A → SetStore A → SetStore A
  unfolding has delete
  remove value store =
      if has store.values value then record { values = delete store.values value } else store

  unfoldable pub set : List A → SetStore A → SetStore A
  unfolding of_values
  set values store = record { values = of_values values }

  unfoldable pub clear : SetStore A → SetStore A
  clear store = record { values = [] }

-- A call of one of the actions that createSetStore returns beside the store.
pub data SetAction {ℓ} (A : Type ℓ) : Type ℓ where
  add_value : A → SetAction A
  remove_value : A → SetAction A
  set_values : List A → SetAction A
  clear_values : SetAction A

module _ {ℓ} {A : Type ℓ} ⦃e : Key A⦄ where
  unfoldable pub run : SetAction A → SetStore A → SetStore A
  unfolding add remove set clear
  run (add_value v) store = add v store
  run (remove_value v) store = remove v store
  run (set_values vs) store = set vs store
  run clear_values store = clear store
