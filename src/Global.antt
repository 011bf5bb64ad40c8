-- ===== src/Global.antt =====
-- frontend/src/lib/globalstate.ts: what the whole frontend knows of the backends, the user and the run.
-- `State` has the signals, `Backends` and `Status` the functions that set them; `Told` and `Named` are about
-- the callbacks of the watched keys. `Commands` are those of frontend/src/BackendViewer.tsx.
pub mod State
pub mod Backends
pub mod Status
pub mod Told
pub mod Named
pub mod Commands
