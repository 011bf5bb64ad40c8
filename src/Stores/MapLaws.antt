-- ===== src/Stores/MapLaws.antt =====
-- rmap.ts: the store against the finite map that it stands for, a function from keys to values.
use mulex_fk.Prelude.{
  Bool, true, false, not, ◌&&◌, Option, none, some, List, [], ◌∷◌, arith, ◌≡◌, refl, ap, ◌∙◌,
  if◌then◌else◌, Bool-cases, inl, inr,
}
use mulex_fk.Prelude.Keys.{Key, ◌==◌}
use mulex_fk.Stores.Maps.{
  MapStore, get, has, put, delete, put_all, of_entries, add, modify, add_or_modify, remove, set,
  clear, run, MapAction, add_entry, modify_entry, add_or_modify_entry, remove_entry, set_entries,
  clear_entries,
}

abbrev pub is_bound {κ} : {V : Type κ} → Option V → Bool
is_bound none = false
is_bound (some v) = true

module _ {ℓ κ} {K : Type ℓ} {V : Type κ} ⦃e : Key K⦄ where
  -- The last entry of a list for a key, or what was there before.
  abbrev pub last_entry : List (K × V) → K → Option V → Option V
  last_entry [] j old = old
  last_entry ((k, v) ∷ es) j old = last_entry es j (if k == j then some v else old)

  -- What an action does to a map.
  abbrev pub after : MapAction K V → (K → Option V) → K → Option V
  after (add_entry k v) old j = if k == j && not (is_bound (old j)) then some v else old j
  after (modify_entry k v) old j = if k == j && is_bound (old j) then some v else old j
  after (add_or_modify_entry k v) old j = if k == j then some v else old j
  after (remove_entry k) old j = if k == j then none else old j
  after (set_entries es) old j = last_entry es j none
  after clear_entries old j = none

  pub get-put :
      (m : List (K × V)) (k : K) (v : V) (j : K)
      → get (put m k v) j ≡ (if k == j then some v else get m j)
  unfolding get put
  get-put [] k v j = refl
  get-put ((i, w) ∷ m) k v j =
      ground (arith, get-put m k v j, e.same_iff i k, e.same_iff i j, e.same_iff k j)

  pub get-put_self : (m : List (K × V)) (k : K) (v : V) → get (put m k v) k ≡ some v
  get-put_self m k v = ground (arith, get-put m k v k, e.same_iff k k)

  pub get-delete :
      (m : List (K × V)) (k j : K) → get (delete m k) j ≡ (if k == j then none else get m j)
  unfolding get delete
  get-delete [] k j = ground arith
  get-delete ((i, w) ∷ m) k j =
      ground (arith, get-delete m k j, e.same_iff i k, e.same_iff i j, e.same_iff k j)

  pub has-get : (m : List (K × V)) (k : K) → has m k ≡ is_bound (get m k)
  unfolding has get
  has-get [] k = refl
  has-get ((i, w) ∷ m) k = ground (arith, has-get m k)

  pub get-put_all : (m es : List (K × V)) (j : K) → get (put_all m es) j ≡ last_entry es j (get m j)
  unfolding put_all
  get-put_all m [] j = refl
  get-put_all m ((k, v) ∷ es) j =
      get-put_all (put m k v) es j ∙ ap (last_entry es j) (get-put m k v j)

  -- Each action changes the store as it changes the map that the store stands for: `add` writes
  -- only a new key, `modify` only one that is there, and the other keys keep their values.
  pub run-after_map :
      (action : MapAction K V) (store : MapStore K V) (j : K)
      → get (run action store).entries j ≡ after action (get store.entries) j
  unfolding run add modify add_or_modify remove set clear of_entries
  run-after_map (add_entry k v) store j =
      ground (arith, has-get store.entries k, get-put store.entries k v j, e.same_iff k j)
  run-after_map (modify_entry k v) store j =
      ground (arith, has-get store.entries k, get-put store.entries k v j, e.same_iff k j)
  run-after_map (add_or_modify_entry k v) store j = get-put store.entries k v j
  run-after_map (remove_entry k) store j =
      ground (arith, has-get store.entries k, get-delete store.entries k j, e.same_iff k j)
  run-after_map (set_entries es) store j =
      get-put_all [] es j ∙ ap (last_entry es j) (unfold get in refl)
  run-after_map clear_entries store j = unfold get in refl

  -- No key is listed twice.
  abbrev pub HasDistinctKeys : List (K × V) → Type 0
  HasDistinctKeys [] = Unit
  HasDistinctKeys ((k, v) ∷ m) = (has m k ≡ false) × HasDistinctKeys m

  has-put :
      (m : List (K × V)) (k : K) (v : V) (j : K)
      → has (put m k v) j ≡ (if k == j then true else has m j)
  has-put m k v j = ground (arith, has-get (put m k v) j, has-get m j, get-put m k v j)

  has-delete :
      (m : List (K × V)) (k j : K) → has (delete m k) j ≡ (if k == j then false else has m j)
  has-delete m k j = ground (arith, has-get (delete m k) j, has-get m j, get-delete m k j)

  pub HasDistinctKeys-put :
      (m : List (K × V)) (k : K) (v : V) → HasDistinctKeys m → HasDistinctKeys (put m k v)
  unfolding put
  HasDistinctKeys-put [] k v d = (unfold has in refl, tt)
  HasDistinctKeys-put ((i, w) ∷ m) k v (apart, d) = elim (Bool-cases (i == k)) [
    | inl same ↦ rw same (apart, d)
    | inr other ↦ rw other (
      ground (arith, has-put m k v i, e.same_iff k i, e.same_iff i k),
      HasDistinctKeys-put m k v d,
    )
  ]

  HasDistinctKeys-delete :
      (m : List (K × V)) (k : K) → HasDistinctKeys m → HasDistinctKeys (delete m k)
  unfolding delete
  HasDistinctKeys-delete [] k d = tt
  HasDistinctKeys-delete ((i, w) ∷ m) k (apart, d) = elim (Bool-cases (i == k)) [
    | inl same ↦ rw same (HasDistinctKeys-delete m k d)
    | inr other ↦ rw other (ground (arith, has-delete m k i), HasDistinctKeys-delete m k d)
  ]

  HasDistinctKeys-put_all :
      (m es : List (K × V)) → HasDistinctKeys m → HasDistinctKeys (put_all m es)
  unfolding put_all
  HasDistinctKeys-put_all m [] d = d
  HasDistinctKeys-put_all m ((k, v) ∷ es) d =
      HasDistinctKeys-put_all (put m k v) es (HasDistinctKeys-put m k v d)

  -- Every action keeps the keys distinct.
  pub run-HasDistinctKeys :
      (action : MapAction K V) (store : MapStore K V)
      → HasDistinctKeys store.entries
      → HasDistinctKeys (run action store).entries
  unfolding run add modify add_or_modify remove set clear of_entries
  run-HasDistinctKeys (add_entry k v) store d = elim (Bool-cases (has store.entries k)) [
    | inl old ↦ rw old d
    | inr new ↦ rw new (HasDistinctKeys-put store.entries k v d)
  ]
  run-HasDistinctKeys (modify_entry k v) store d = elim (Bool-cases (has store.entries k)) [
    | inl old ↦ rw old (HasDistinctKeys-put store.entries k v d)
    | inr new ↦ rw new d
  ]
  run-HasDistinctKeys (add_or_modify_entry k v) store d = HasDistinctKeys-put store.entries k v d
  run-HasDistinctKeys (remove_entry k) store d = elim (Bool-cases (has store.entries k)) [
    | inl old ↦ rw old (HasDistinctKeys-delete store.entries k d)
    | inr new ↦ rw new d
  ]
  run-HasDistinctKeys (set_entries es) store d = HasDistinctKeys-put_all [] es tt
  run-HasDistinctKeys clear_entries store d = tt
