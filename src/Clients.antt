-- ===== src/Clients.antt =====
-- frontend/src/components/ClientsTable.tsx: the browsers that are connected to the server. `Table` has
-- the map of them and what changes it, `Finding` and `Connected` are about the connections that it shows.
pub mod Table
pub mod Finding
pub mod Connected
