-- ===== src/Stores/Maps.antt =====
-- rmap.ts: createMapStore. A Map is the list of its entries in the order of insertion.
use mulex_fk.Prelude.{Bool, true, false, not, Option, none, some, List, [], ◌∷◌, if◌then◌else◌}
use mulex_fk.Prelude.Keys.{Key, ◌==◌}

-- `{ data: Map<K, V> }`
pub record MapStore {ℓ κ} (K : Type ℓ) (V : Type κ) : Type (ℓ ⊔ κ) where
  pub entries : List (K × V)

module _ {ℓ κ} {K : Type ℓ} {V : Type κ} ⦃e : Key K⦄ where
  -- Map.get, Map.has, Map.set, Map.delete and `new Map(entries)`
  unfoldable pub get : List (K × V) → K → Option V
  get [] k = none
  get ((j, v) ∷ m) k = if j == k then some v else get m k

  unfoldable pub has : List (K × V) → K → Bool
  has [] k = false
  has ((j, v) ∷ m) k = if j == k then true else has m k

  unfoldable pub put : List (K × V) → K → V → List (K × V)
  put [] k v = (k, v) ∷ []
  put ((j, w) ∷ m) k v = if j == k then (j, v) ∷ m else (j, w) ∷ put m k v

  unfoldable pub delete : List (K × V) → K → List (K × V)
  delete [] k = []
  delete ((j, w) ∷ m) k = if j == k then delete m k else (j, w) ∷ delete m k

  unfoldable pub put_all : List (K × V) → List (K × V) → List (K × V)
  unfolding put
  put_all m [] = m
  put_all m ((k, v) ∷ es) = put_all (put m k v) es

  unfoldable pub of_entries : List (K × V) → List (K × V)
  unfolding put_all
  of_entries es = put_all [] es

  unfoldable pub create_map_store : List (K × V) → MapStore K V
  unfolding of_entries
  create_map_store values = record { entries = of_entries values }

  unfoldable pub add : K → V → MapStore K V → MapStore K V
  unfolding has put
  add key value store =
      if not (has store.entries key)
      then record { entries = put store.entries key value }
      else store

  unfoldable pub modify : K → V → MapStore K V → MapStore K V
  unfolding has put
  modify key value store =
      if has store.entries key then record { entries = put store.entries key value } else store

  unfoldable pub add_or_modify : K → V → MapStore K V → MapStore K V
  unfolding put
  add_or_modify key value store = record { entries = put store.entries key value }

  unfoldable pub remove : K → MapStore K V → MapStore K V
  unfolding has delete
  remove key store =
      if has store.entries key then record { entries = delete store.entries key } else store

  unfoldable pub set : List (K × V) → MapStore K V → MapStore K V
  unfolding of_entries
  set values store = record { entries = of_entries values }

  unfoldable pub clear : MapStore K V → MapStore K V
  clear store = record { entries = [] }

-- A call of one of the actions that createMapStore returns beside the store.
pub data MapAction {ℓ κ} (K : Type ℓ) (V : Type κ) : Type (ℓ ⊔ κ) where
  add_entry modify_entry add_or_modify_entry : K → V → MapAction K V
  remove_entry : K → MapAction K V
  set_entries : List (K × V) → MapAction K V
  clear_entries : MapAction K V

module _ {ℓ κ} {K : Type ℓ} {V : Type κ} ⦃e : Key K⦄ where
  unfoldable pub run : MapAction K V → MapStore K V → MapStore K V
  unfolding add modify add_or_modify remove set clear
  run (add_entry k v) store = add k v store
  run (modify_entry k v) store = modify k v store
  run (add_or_modify_entry k v) store = add_or_modify k v store
  run (remove_entry k) store = remove k store
  run (set_entries es) store = set es store
  run clear_entries store = clear store
