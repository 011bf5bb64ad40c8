-- ===== src/Events.antt =====
-- frontend/src/EventsViewer.tsx: the events of the server, their traffic, and the frames that are
-- captured. `Statistics` has the polled counters, `Capture` the captured events; `Rows` and `Polls`
-- are about the first, `Kept` about the second.
pub mod Statistics
pub mod Rows
pub mod Polls
pub mod Capture
pub mod Kept
