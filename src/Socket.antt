-- ===== src/Socket.antt =====
-- frontend/src/lib/websocket.ts: the connection that all calls and events of the frontend share.
-- `State` has the state, `Messages` what is sent, `Handlers` the methods and the socket's callbacks,
-- `Runs` the order in which a browser runs them. The other children hold what is proved.
pub mod State
pub mod Messages
pub mod Handlers
pub mod Runs
pub mod Counting
pub mod Ids
pub mod Promises
pub mod Settling
pub mod Replies
pub mod Modes
