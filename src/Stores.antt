-- ===== src/Stores.antt =====
-- frontend/src/lib/rset.ts and rmap.ts: a reactive Set and a reactive Map. `Sets` and `Maps` have the
-- stores with their actions, `SetLaws` and `MapLaws` what the actions do to the content, `Copies`
-- what a copy has.
pub mod Sets
pub mod Maps
pub mod SetLaws
pub mod MapLaws
pub mod Copies
