-- ===== src/Clients/Table.antt =====
-- ClientsTable.tsx: addClient, removeClient and the handlers that call them.
use mulex_fk.Prelude.{ℕ, Option, none, some, List, [], ◌∷◌, length, ltb, if◌then◌else◌}
use mulex_fk.Prelude.Int.{ℤ}
use mulex_fk.Prelude.Keys.{number_key, list_key}
use mulex_fk.Convert.Engine.{Text}
use mulex_fk.Stores.Sets
use mulex_fk.Stores.Maps
use mulex_fk.Stores.Maps.{MapStore, add_entry, modify_entry, remove_entry, set_entries}

pub record ClientInfo : Type 0 where
  pub ip : Text
  pub timestamp : ℤ
  -- `Set<number>`, of the ids that unpack gives
  pub connections : List ℕ

abbrev pub Clients : Type 0
Clients = MapStore Text ClientInfo

-- A row of `unpack(['str32', 'int64', 'uint64'])`.
pub record Client : Type 0 where
  pub ip : Text
  pub timestamp : ℤ
  pub id : ℕ

abbrev pub add_found : Client → Option ClientInfo → Clients → Clients
add_found client (some c) clients =
    Maps.run
      (modify_entry client.ip (record {
        ip = client.ip;
        timestamp = c.timestamp;
        connections = Sets.insert c.connections client.id;
      }))
      clients
add_found client none clients =
    Maps.run
      (add_entry client.ip (record {
        ip = client.ip;
        timestamp = client.timestamp;
        connections = Sets.of_values (client.id ∷ []);
      }))
      clients

unfoldable pub add_client : Client → Clients → Clients
add_client client clients = add_found client (Maps.get clients.entries client.ip) clients

-- The keys of the entries whose connections have the id.
unfoldable pub keys_with : ℕ → List (Text × ClientInfo) → List Text
keys_with id [] = []
keys_with id ((k, v) ∷ entries) =
    if Sets.has v.connections id then k ∷ keys_with id entries else keys_with id entries

-- The `none` is no case of the source: the key is one of the map's.
abbrev pub drop_connection : ℕ → Text → Option ClientInfo → Clients → Clients
drop_connection id key none clients = clients
drop_connection id key (some client) clients =
    if ltb 1 (length client.connections)
    then Maps.run
        (modify_entry key (record {
          ip = client.ip;
          timestamp = client.timestamp;
          connections = Sets.delete client.connections id;
        }))
        clients
    else Maps.run (remove_entry key) clients

-- `keys.length === 1`; otherwise an error is logged.
abbrev pub remove_at : ℕ → List Text → Clients → Clients
remove_at id (key ∷ []) clients = drop_connection id key (Maps.get clients.entries key) clients
remove_at id _ clients = clients

unfoldable pub remove_client : ℕ → Clients → Clients
unfolding keys_with
remove_client id clients = remove_at id (keys_with id clients.entries) clients

unfoldable pub add_clients : List Client → Clients → Clients
unfolding add_client
add_clients [] clients = clients
add_clients (client ∷ client_list) clients = add_clients client_list (add_client client clients)

-- The reply to HttpGetClients.
unfoldable pub fetched : List Client → Clients → Clients
unfolding add_clients
fetched client_list clients = add_clients client_list (Maps.run (set_entries []) clients)

-- An event of the server, 'mxhttp::newclient' or 'mxhttp::delclient', or that reply.
pub data ClientEvent : Type 0 where
  arrives : Client → ClientEvent
  leaves : ℕ → ClientEvent
  fetches : List Client → ClientEvent

unfoldable pub act : ClientEvent → Clients → Clients
unfolding add_client remove_client fetched
act (arrives client) clients = add_client client clients
act (leaves id) clients = remove_client id clients
act (fetches client_list) clients = fetched client_list clients
