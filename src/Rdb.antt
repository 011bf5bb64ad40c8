-- ===== src/Rdb.antt =====
-- frontend/src/lib/rdb.ts: MxRdb, a handle on the server's database. `Access` has its methods,
-- `Watching` the frames of a watched key, `RoundTrip`, `Caching` and `Unknown` what is proved of them. `Shown` and
-- `Created` are the page of frontend/src/RdbViewer.tsx, and `Leaked` is about what it watches.
pub mod Access
pub mod Caching
pub mod Unknown
pub mod RoundTrip
pub mod Watching
pub mod Shown
pub mod Leaked
pub mod Created
