-- ===== src/Clients/Finding.antt =====
-- ClientsTable.tsx: the address that removeClient finds for a connection.
use mulex_fk.Prelude.{
  ℕ, Bool, true, false, ◌≡◌, refl, ap, ◌∙◌, Option, none, some, List, [], ◌∷◌, length, ltb, arith,
  Bool-cases, ◌⊎◌, inl, inr,
}
use mulex_fk.Prelude.Keys.{◌==◌, number_key, list_key, same_list_iff}
use mulex_fk.Convert.Engine.{Text}
use mulex_fk.Stores.Sets
use mulex_fk.Stores.Maps
use mulex_fk.Stores.Maps.{add_entry, modify_entry, remove_entry, set_entries}
use mulex_fk.Stores.MapLaws.{is_bound, HasDistinctKeys, has-get}
use mulex_fk.Clients.Table.{ClientInfo, keys_with}

abbrev pub lists : Option ClientInfo → ℕ → Bool
lists none id = false
lists (some info) id = Sets.has info.connections id

-- What keys_with finds in entries where an id is at one address.
abbrev pub Finds : ℕ → List (Text × ClientInfo) → Type 0
Finds id entries =
    ((keys_with id entries ≡ []) × ((ip : Text) → lists (Maps.get entries ip) id ≡ false))
    ⊎ ((k : Text) × (info : ClientInfo) × (keys_with id entries ≡ k ∷ [])
        × (Maps.get entries k ≡ some info)
        × (Sets.has info.connections id ≡ true))

module _ (id : ℕ) (k : Text) (v : ClientInfo) (entries : List (Text × ClientInfo))
    (apart : Maps.has entries k ≡ false) where
  absent : Maps.get entries k ≡ none
  absent = go (Maps.get entries k) (has-get entries k)
    where
      go : (found : Option ClientInfo) → Maps.has entries k ≡ is_bound found → found ≡ none
      go none e = refl
      go (some info) e = cc

  -- The other entries are found behind one.
  get-behind :
      (ip : Text) → (k == ip) ≡ true ⊎ (Maps.get ((k, v) ∷ entries) ip ≡ Maps.get entries ip)
  unfolding Maps.get
  get-behind ip = elim (Bool-cases (k == ip)) [ inl e ↦ inl e | inr e ↦ inr (rw e refl) ]

  lists-behind :
      (ip : Text)
      → lists (Maps.get entries ip) id ≡ true
      → lists (Maps.get ((k, v) ∷ entries) ip) id ≡ true
  lists-behind ip h = elim (get-behind ip) [
    | inl same ↦
        let e : Maps.get entries ip ≡ none = ground (arith, absent, same_list_iff k ip) in
        absurd (cc)
    | inr e ↦ ap (λ o. lists o id) e ∙ h
  ]

  some-behind :
      (ip : Text) (info : ClientInfo)
      → Maps.get entries ip ≡ some info
      → Maps.get ((k, v) ∷ entries) ip ≡ some info
  some-behind ip info h = elim (get-behind ip) [
    | inl same ↦
        let e : Maps.get entries ip ≡ none = ground (arith, absent, same_list_iff k ip) in
        absurd (cc)
    | inr e ↦ e ∙ h
  ]

  keys_with-yes :
      Sets.has v.connections id ≡ true
      → keys_with id entries ≡ []
      → keys_with id ((k, v) ∷ entries) ≡ k ∷ []
  unfolding keys_with
  keys_with-yes h e = rw (h, e) refl

  keys_with-no :
      Sets.has v.connections id ≡ false
      → (ks : List Text) → keys_with id entries ≡ ks
      → keys_with id ((k, v) ∷ entries) ≡ ks
  unfolding keys_with
  keys_with-no h ks e = rw (h, e) refl

  get-front : Maps.get ((k, v) ∷ entries) k ≡ some v
  unfolding Maps.get
  get-front = ground (arith, same_list_iff k k)

nobody_behind :
    (id : ℕ) (k : Text) (v : ClientInfo) (entries : List (Text × ClientInfo))
    → Sets.has v.connections id ≡ false
    → ((ip : Text) → lists (Maps.get entries ip) id ≡ false)
    → (ip : Text) → lists (Maps.get ((k, v) ∷ entries) ip) id ≡ false
unfolding Maps.get
nobody_behind id k v entries h nobody ip = elim (Bool-cases (k == ip)) [
  | inl e ↦ rw e h
  | inr e ↦ rw e (nobody ip)
]

pub keys_with-Finds :
    (id : ℕ) (entries : List (Text × ClientInfo))
    → HasDistinctKeys entries
    → ((ip ip' : Text)
        → lists (Maps.get entries ip) id ≡ true
        → lists (Maps.get entries ip') id ≡ true
        → ip ≡ ip')
    → Finds id entries
keys_with-Finds id [] d one = inl (unfold keys_with in refl, λ ip. unfold Maps.get in refl)
keys_with-Finds id ((k, v) ∷ entries) (apart, d) one =
    let ih = keys_with-Finds id entries d (λ ip ip' h h'.
      one ip ip' (lists-behind id k v entries apart ip h)
        (lists-behind id k v entries apart ip' h')) in
    elim (Bool-cases (Sets.has v.connections id)) [
      | inl here ↦ elim ih [
        | inl (no_more, nobody) ↦ inr (
          k,
          v,
          keys_with-yes id k v entries apart here no_more,
          get-front id k v entries apart,
          here,
        )
        | inr (k', info, found, placed, listed) ↦
            let front : lists (Maps.get ((k, v) ∷ entries) k) id ≡ true =
              ap (λ o. lists o id) (get-front id k v entries apart) ∙ here in
            let behind : lists (Maps.get ((k, v) ∷ entries) k') id ≡ true =
              ap (λ o. lists o id) (some-behind id k v entries apart k' info placed) ∙ listed in
            let same : k ≡ k' = one k k' front behind in
            let gone : Maps.get entries k ≡ none = absent id k v entries apart in absurd (cc)
      ]
      | inr not_here ↦ elim ih [
        | inl (no_more, nobody) ↦ inl (
          keys_with-no id k v entries apart not_here [] no_more,
          nobody_behind id k v entries not_here nobody,
        )
        | inr (k', info, found, placed, listed) ↦ inr (
          k',
          info,
          keys_with-no id k v entries apart not_here (k' ∷ []) found,
          some-behind id k v entries apart k' info placed,
          listed,
        )
      ]
    ]

-- A Set that has a value and no more than one has only that.
pub has-alone :
    (xs : List ℕ) (id j : ℕ)
    → Sets.has xs id ≡ true
    → ltb 1 (length xs) ≡ false
    → Sets.has xs j ≡ id == j
unfolding Sets.has
has-alone [] id j h short = cc
has-alone (x ∷ []) id j h short = ground (arith, number_key.same_iff x id, number_key.same_iff id j)
has-alone (x ∷ y ∷ xs) id j h short = ground arith
