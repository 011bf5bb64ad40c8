-- ===== src/Tests.antt =====
-- Runs of the library on concrete inputs. `Engines` has an engine for them.
pub mod Engines
pub mod Wire
pub mod Tables
pub mod Connection
pub mod Trees
pub mod Pages
pub mod Database
pub mod Transfers
mod Views
mod Forms
mod Composed
