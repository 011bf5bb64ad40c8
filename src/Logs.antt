-- ===== src/Logs.antt =====
-- frontend/src/components/LogTable.tsx: the messages of the backends. `Provider` has the lists of them and
-- what changes these; `Bounds` and `Order` are about the lists.
pub mod Provider
pub mod Bounds
pub mod Order
