-- ===== src/Plugins.antt =====
-- frontend/src/lib/rpc.ts and plugin.tsx. `Rpc` has the functions that a plugin calls the server by, with
-- what they call; `Registry` the plugins that are loaded.
pub mod Rpc
pub mod Registry
