-- ===== src/Clients/Connected.antt =====
-- ClientsTable.tsx: the connections that the table shows.
use mulex_fk.Prelude.{
  ℕ, Bool, true, false, not, ◌&&◌, ◌||◌, ◌≡◌, refl, ap, ◌∙◌, Option, none, some, List, [], ◌∷◌,
  length, ltb, arith, Bool-cases, inl, inr,
}
use mulex_fk.Prelude.Keys.{◌==◌, number_key, list_key, same_list_iff}
use mulex_fk.Convert.Engine.{Text}
use mulex_fk.Stores.Sets
use mulex_fk.Stores.SetLaws.{has-insert, has-delete}
use mulex_fk.Stores.Maps
use mulex_fk.Stores.Maps.{add_entry, modify_entry, remove_entry, set_entries}
use mulex_fk.Stores.MapLaws.{run-after_map, HasDistinctKeys, run-HasDistinctKeys}
use mulex_fk.Clients.Table.{
  ClientInfo, Clients, Client, add_found, add_client, keys_with, drop_connection, remove_at,
  remove_client, add_clients, fetched, ClientEvent, arrives, leaves, fetches, act,
}
use mulex_fk.Clients.Finding.{lists, keys_with-Finds, has-alone}

-- The table shows a connection at an address.
abbrev pub shows : Clients → Text → ℕ → Bool
shows clients ip id = lists (Maps.get clients.entries ip) id

-- A connection is shown at one address.
abbrev pub IsUnique : Clients → Type 0
IsUnique clients =
    (ip ip' : Text) (id : ℕ) → shows clients ip id ≡ true → shows clients ip' id ≡ true → ip ≡ ip'

abbrev pub is_client : Client → Text → ℕ → Bool
is_client client ip id = client.ip == ip && client.id == id

abbrev pub is_one_of : List Client → Text → ℕ → Bool
is_one_of [] ip id = false
is_one_of (client ∷ client_list) ip id = is_client client ip id || is_one_of client_list ip id

-- The connections after an event.
abbrev pub after : ClientEvent → (Text → ℕ → Bool) → Text → ℕ → Bool
after (arrives client) old ip id = is_client client ip id || old ip id
after (leaves gone) old ip id = not (gone == id) && old ip id
after (fetches client_list) old ip id = is_one_of client_list ip id

has-single : (x y : ℕ) → Sets.has (Sets.of_values (x ∷ [])) y ≡ x == y
unfolding Sets.has Sets.of_values Sets.insert_all Sets.insert
has-single x y = ground arith

shows-add_client :
    (client : Client) (clients : Clients) (ip : Text) (id : ℕ)
    → shows (add_client client clients) ip id ≡ is_client client ip id || shows clients ip id
unfolding add_client
shows-add_client client clients ip id = go (Maps.get clients.entries client.ip) refl
  where
    go :
        (found : Option ClientInfo)
        → Maps.get clients.entries client.ip ≡ found
        → shows (add_found client found clients) ip id
          ≡ is_client client ip id || shows clients ip id
    go (some c) e = elim (Bool-cases (client.ip == ip)) [
      | inl here ↦
          let e' : Maps.get clients.entries ip ≡ some c =
            ground (arith, same_list_iff client.ip ip) in
          rw (run-after_map (modify_entry client.ip _) clients ip, here, e')
            (has-insert c.connections client.id id)
      | inr there ↦ rw (run-after_map (modify_entry client.ip _) clients ip, there) refl
    ]
    go none e = elim (Bool-cases (client.ip == ip)) [
      | inl here ↦
          let e' : Maps.get clients.entries ip ≡ none =
            ground (arith, same_list_iff client.ip ip) in
          rw (run-after_map (add_entry client.ip _) clients ip, here, e')
            (ground (arith, has-single client.id id))
      | inr there ↦ rw (run-after_map (add_entry client.ip _) clients ip, there) refl
    ]

shows-add_clients :
    (client_list : List Client) (clients : Clients) (ip : Text) (id : ℕ)
    → shows (add_clients client_list clients) ip id
      ≡ is_one_of client_list ip id || shows clients ip id
unfolding add_clients
shows-add_clients [] clients ip id = refl
shows-add_clients (client ∷ client_list) clients ip id = ground (
  arith,
  shows-add_clients client_list (add_client client clients) ip id,
  shows-add_client client clients ip id,
)

module _ (clients : Clients) (id : ℕ) (one : IsUnique clients) where
  shows-drop_connection :
      (k : Text) (info : ClientInfo)
      → Maps.get clients.entries k ≡ some info
      → Sets.has info.connections id ≡ true
      → (ip : Text) (j : ℕ)
      → shows (drop_connection id k (some info) clients) ip j ≡ not (id == j) && shows clients ip j
  shows-drop_connection k info placed listed ip j =
      let front : shows clients k id ≡ true = ap (λ o. lists o id) placed ∙ listed in
      elim (Bool-cases (k == ip)) [
        | inl here ↦
            let same : k ≡ ip = (same_list_iff k ip).0 here in
            let at_ip : Maps.get clients.entries ip ≡ some info = rw (← same) placed in
            elim (Bool-cases (ltb 1 (length info.connections))) [
              | inl more ↦
                  rw (more, run-after_map (modify_entry k _) clients ip, here, at_ip)
                    (has-delete info.connections id j)
              | inr alone ↦
                  rw
                    (
                      alone,
                      run-after_map (remove_entry k) clients ip,
                      here,
                      at_ip,
                      has-alone info.connections id j listed alone,
                    )
                    (ground arith)
            ]
        | inr there ↦
            let kept : shows clients ip j ≡ not (id == j) && shows clients ip j =
              ground (arith, one k ip id front, same_list_iff k ip, number_key.same_iff id j) in
            elim (Bool-cases (ltb 1 (length info.connections))) [
              | inl more ↦ rw (more, run-after_map (modify_entry k _) clients ip, there) kept
              | inr alone ↦ rw (alone, run-after_map (remove_entry k) clients ip, there) kept
            ]
      ]

  shows-remove_client :
      HasDistinctKeys clients.entries
      → (ip : Text) (j : ℕ)
      → shows (remove_client id clients) ip j ≡ not (id == j) && shows clients ip j
  unfolding remove_client
  shows-remove_client d ip j =
      elim (keys_with-Finds id clients.entries d (λ ip ip' h h'. one ip ip' id h h')) [
        | inl (none_found, nobody) ↦
            rw none_found (ground (arith, nobody ip, number_key.same_iff id j))
        | inr (k, info, found, placed, listed) ↦
            rw (found, placed) (shows-drop_connection k info placed listed ip j)
      ]

drop_connection-distinct :
    (id : ℕ) (k : Text) (found : Option ClientInfo) (clients : Clients)
    → HasDistinctKeys clients.entries
    → HasDistinctKeys (drop_connection id k found clients).entries
drop_connection-distinct id k none clients d = d
drop_connection-distinct id k (some info) clients d =
    elim (Bool-cases (ltb 1 (length info.connections))) [
      | inl more ↦ rw more (run-HasDistinctKeys (modify_entry k _) clients d)
      | inr alone ↦ rw alone (run-HasDistinctKeys (remove_entry k) clients d)
    ]

remove_at-distinct :
    (id : ℕ) (keys : List Text) (clients : Clients)
    → HasDistinctKeys clients.entries
    → HasDistinctKeys (remove_at id keys clients).entries
remove_at-distinct id [] clients d = d
remove_at-distinct id (k ∷ []) clients d =
    drop_connection-distinct id k (Maps.get clients.entries k) clients d
remove_at-distinct id (k ∷ k' ∷ keys) clients d = d

add_client-distinct :
    (client : Client) (clients : Clients)
    → HasDistinctKeys clients.entries
    → HasDistinctKeys (add_client client clients).entries
unfolding add_client
add_client-distinct client clients d = go (Maps.get clients.entries client.ip)
  where
    go : (found : Option ClientInfo) → HasDistinctKeys (add_found client found clients).entries
    go none = run-HasDistinctKeys (add_entry client.ip _) clients d
    go (some c) = run-HasDistinctKeys (modify_entry client.ip _) clients d

add_clients-distinct :
    (client_list : List Client) (clients : Clients)
    → HasDistinctKeys clients.entries
    → HasDistinctKeys (add_clients client_list clients).entries
unfolding add_clients
add_clients-distinct [] clients d = d
add_clients-distinct (client ∷ client_list) clients d =
    add_clients-distinct client_list (add_client client clients)
      (add_client-distinct client clients d)

act-distinct :
    (event : ClientEvent) (clients : Clients)
    → HasDistinctKeys clients.entries
    → HasDistinctKeys (act event clients).entries
unfolding act remove_client fetched
act-distinct (arrives client) clients d = add_client-distinct client clients d
act-distinct (leaves gone) clients d =
    remove_at-distinct gone (keys_with gone clients.entries) clients d
act-distinct (fetches client_list) clients d =
    add_clients-distinct client_list (Maps.run (set_entries []) clients)
      (run-HasDistinctKeys (set_entries []) clients d)

-- If the table has an entry for an address once, and shows a connection at one address, then an event
-- changes what it shows as the server means it: a connection that arrives is added, one that leaves is
-- taken away wherever it is, and a fetched list replaces all; and an address still has one entry.
pub act-shows :
    (event : ClientEvent) (clients : Clients)
    → HasDistinctKeys clients.entries
    → IsUnique clients
    → HasDistinctKeys (act event clients).entries
      × ((ip : Text) (id : ℕ) → shows (act event clients) ip id ≡ after event (shows clients) ip id)
unfolding act fetched
act-shows (arrives client) clients d one =
    (act-distinct (arrives client) clients d, shows-add_client client clients)
act-shows (leaves gone) clients d one =
    (act-distinct (leaves gone) clients d, shows-remove_client clients gone one d)
act-shows (fetches client_list) clients d one = (
  act-distinct (fetches client_list) clients d,
  λ ip id.
      shows-add_clients client_list (Maps.run (set_entries []) clients) ip id
      ∙ rw (run-after_map (set_entries []) clients ip) (ground arith),
)
