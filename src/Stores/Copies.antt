-- ===== src/Stores/Copies.antt =====
-- rmap.ts: a map that is set as the entries of a store.
use mulex_fk.Prelude.{
  false, Option, none, some, List, [], ◌∷◌, ◌≡◌, refl, ap, sym, ◌∙◌, Bool-cases, inl, inr,
}
use mulex_fk.Prelude.Keys.{Key, ◌==◌}
use mulex_fk.Stores.Maps.{MapStore, get, has, set, of_entries}
use mulex_fk.Stores.MapLaws.{is_bound, last_entry, HasDistinctKeys, has-get, get-put_all}

abbrev or_old {κ} : {V : Type κ} → Option V → Option V → Option V
or_old none old = old
or_old (some v) old = some v

none_of_unbound {κ} : {V : Type κ} (o : Option V) → is_bound o ≡ false → o ≡ none
none_of_unbound none h = refl
none_of_unbound (some v) h = cc

module _ {ℓ κ} {K : Type ℓ} {V : Type κ} ⦃e : Key K⦄ where
  get_fresh : (m : List (K × V)) (k : K) → has m k ≡ false → get m k ≡ none
  get_fresh m k h = none_of_unbound (get m k) (sym (has-get m k) ∙ h)

  last_entry-get :
      (m : List (K × V)) (j : K) (old : Option V)
      → HasDistinctKeys m
      → last_entry m j old ≡ or_old (get m j) old
  unfolding get
  last_entry-get [] j old d = refl
  last_entry-get ((k, v) ∷ m) j old (apart, d) = elim (Bool-cases (k == j)) [
    | inl same ↦
        let here : k ≡ j = (e.same_iff k j).0 same in
        rw same (
          last_entry-get m j (some v) d
          ∙ ap (λ o. or_old o (some v)) (ap (λ i. get m i) (sym here) ∙ get_fresh m k apart))
    | inr other ↦ rw other (last_entry-get m j old d)
  ]

  -- The copy of a map of distinct keys is the map.
  pub get-set :
      (m : List (K × V)) (store : MapStore K V) (j : K)
      → HasDistinctKeys m
      → get (set m store).entries j ≡ get m j
  unfolding set of_entries
  get-set m store j d = get-put_all [] m j ∙ (last_entry-get m j (get [] j) d ∙ go (get m j))
    where
      go : (o : Option V) → or_old o (get {V = V} [] j) ≡ o
      go (some v) = refl
      go none = unfold get in refl
