-- ===== src/Stores/SetLaws.antt =====
-- rset.ts: the store against the set that it stands for, a test of values.
use mulex_fk.Prelude.{
  Bool, false, not, ◌||◌, ◌&&◌, List, [], ◌∷◌, ◌++◌, arith, ◌≡◌, refl, Bool-cases, inl, inr,
}
use mulex_fk.Prelude.Keys.{Key, ◌==◌}
use mulex_fk.Stores.Sets.{
  SetStore, has, insert, delete, insert_all, of_values, create_set_store, add, remove, set, clear,
  run, SetAction, add_value, remove_value, set_values, clear_values,
}

module _ {ℓ} {A : Type ℓ} ⦃e : Key A⦄ where
  -- The values of a list, as a test.
  abbrev pub listed : List A → A → Bool
  listed [] w = false
  listed (x ∷ xs) w = x == w || listed xs w

  -- What an action does to a set.
  abbrev pub after : SetAction A → (A → Bool) → A → Bool
  after (add_value v) old w = v == w || old w
  after (remove_value v) old w = not (v == w) && old w
  after (set_values vs) old w = listed vs w
  after clear_values old w = false

  has-append : (xs : List A) (v w : A) → has (xs ++ (v ∷ [])) w ≡ v == w || has xs w
  unfolding has
  has-append [] v w = refl
  has-append (x ∷ xs) v w = ground (arith, has-append xs v w)

  pub has-insert : (xs : List A) (v w : A) → has (insert xs v) w ≡ v == w || has xs w
  unfolding insert
  has-insert xs v w = elim (Bool-cases (has xs v)) [
    | inl old ↦ rw old (ground (arith, e.same_iff v w))
    | inr new ↦ rw new (has-append xs v w)
  ]

  pub has-delete : (xs : List A) (v w : A) → has (delete xs v) w ≡ not (v == w) && has xs w
  unfolding has delete
  has-delete [] v w = ground arith
  has-delete (x ∷ xs) v w =
      ground (arith, has-delete xs v w, e.same_iff x v, e.same_iff v w, e.same_iff x w)

  has-insert_all : (xs vs : List A) (w : A) → has (insert_all xs vs) w ≡ listed vs w || has xs w
  unfolding insert_all
  has-insert_all xs [] w = refl
  has-insert_all xs (v ∷ vs) w =
      ground (arith, has-insert_all (insert xs v) vs w, has-insert xs v w)

  has-of_values : (vs : List A) (w : A) → has (of_values vs) w ≡ listed vs w
  unfolding of_values has
  has-of_values vs w = ground (arith, has-insert_all [] vs w)

  -- Each action changes the store as it changes the set that the store stands for: `add` and `remove`
  -- touch their value alone, and `set` and `clear` forget what was there.
  pub run-after_set :
      (action : SetAction A) (store : SetStore A) (w : A)
      → has (run action store).values w ≡ after action (has store.values) w
  unfolding run add remove set clear
  run-after_set (add_value v) store w = ground (arith, has-insert store.values v w, e.same_iff v w)
  run-after_set (remove_value v) store w =
      ground (arith, has-delete store.values v w, e.same_iff v w)
  run-after_set (set_values vs) store w = has-of_values vs w
  run-after_set clear_values store w = unfold has in refl

  -- No value is listed twice.
  abbrev pub IsDistinct : List A → Type 0
  IsDistinct [] = Unit
  IsDistinct (x ∷ xs) = (has xs x ≡ false) × IsDistinct xs

  pub IsDistinct-append :
      (xs : List A) (v : A) → has xs v ≡ false → IsDistinct xs → IsDistinct (xs ++ (v ∷ []))
  unfolding has
  IsDistinct-append [] v h d = (refl, tt)
  IsDistinct-append (x ∷ xs) v h (apart, d) = (
    ground (arith, has-append xs v x, e.same_iff x v, e.same_iff v x),
    IsDistinct-append xs v (ground arith) d,
  )

  IsDistinct-insert : (xs : List A) (v : A) → IsDistinct xs → IsDistinct (insert xs v)
  unfolding insert
  IsDistinct-insert xs v d = elim (Bool-cases (has xs v)) [
    | inl old ↦ rw old d
    | inr new ↦ rw new (IsDistinct-append xs v new d)
  ]

  pub IsDistinct-delete : (xs : List A) (v : A) → IsDistinct xs → IsDistinct (delete xs v)
  unfolding delete
  IsDistinct-delete [] v d = tt
  IsDistinct-delete (x ∷ xs) v (apart, d) = elim (Bool-cases (x == v)) [
    | inl same ↦ rw same (IsDistinct-delete xs v d)
    | inr other ↦ rw other (ground (arith, has-delete xs v x), IsDistinct-delete xs v d)
  ]

  IsDistinct-insert_all : (xs vs : List A) → IsDistinct xs → IsDistinct (insert_all xs vs)
  unfolding insert_all
  IsDistinct-insert_all xs [] d = d
  IsDistinct-insert_all xs (v ∷ vs) d =
      IsDistinct-insert_all (insert xs v) vs (IsDistinct-insert xs v d)

  pub create-IsDistinct : (vs : List A) → IsDistinct (create_set_store vs).values
  unfolding create_set_store of_values
  create-IsDistinct vs = IsDistinct-insert_all [] vs tt

  -- Every action keeps the values distinct.
  pub run-IsDistinct :
      (action : SetAction A) (store : SetStore A)
      → IsDistinct store.values
      → IsDistinct (run action store).values
  unfolding run add remove set clear of_values
  run-IsDistinct (add_value v) store d = elim (Bool-cases (has store.values v)) [
    | inl old ↦ rw old d
    | inr new ↦ rw new (IsDistinct-append store.values v new d)
  ]
  run-IsDistinct (remove_value v) store d = elim (Bool-cases (has store.values v)) [
    | inl old ↦ rw old (IsDistinct-delete store.values v d)
    | inr new ↦ rw new d
  ]
  run-IsDistinct (set_values vs) store d = IsDistinct-insert_all [] vs tt
  run-IsDistinct clear_values store d = tt
