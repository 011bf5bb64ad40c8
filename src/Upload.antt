-- ===== src/Upload.antt =====
-- frontend/src/components/FileDropUpload.tsx: files that are dropped and sent to the server. `Sending`
-- has the transfer, `Dropping` the choice of files; `Whole`, `Extensions` and `Chosen` are about
-- them.
pub mod Sending
pub mod Whole
pub mod Dropping
pub mod Extensions
pub mod Chosen
