-- ===== src/Calls.antt =====
-- How the rest of the frontend uses MxWebsocket: an async function as the calls that it awaits.
-- `Jobs` has such functions, `Servers` what they come to against a server; `Keeping`,
-- `Invariants` and `Known` are about runs. `OverSocket` has the same functions over the
-- connection, and `Exchanged` and `Composed` are about them.
pub mod Jobs
pub mod Servers
pub mod Keeping
pub mod Invariants
pub mod Known
pub mod OverSocket
pub mod Exchanged
pub mod Composed
