-- ===== src/Utils.antt =====
-- frontend/src/lib/utils.ts, lib/rdbtree.ts and components/DynamicRouter.tsx.
-- `Arrays` has array_chunkify and concat_bytes, `Times` timestamp_tohms, `Units` the choice of a unit
-- for byte counts and event_io_extract, `Routes` the dynamic router's table, `Trees` MxRdbTree; `TreeKeys` is about the
-- keys of such a tree.
pub mod Arrays
pub mod Times
pub mod Units
pub mod Routes
pub mod Trees
pub mod TreeKeys
pub mod Texts
