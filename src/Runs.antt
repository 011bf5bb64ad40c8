-- ===== src/Runs.antt =====
-- frontend/src/RunViewer.tsx: the files of a run and their download. `Files` has the tables, `Download`
-- the transfer of a file; `Latest` and `Received` are about them.
pub mod Files
pub mod Latest
pub mod Download
pub mod Received
