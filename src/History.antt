-- ===== src/History.antt =====
-- frontend/src/HistoryViewer.tsx: the live displays. `Plot` has the data of one display, `Selection` the
-- form that makes a new one, `Stored` the displays that are kept for the user.
pub mod Plot
pub mod Selection
pub mod Agreement
pub mod Stored
