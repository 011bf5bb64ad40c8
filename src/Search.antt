-- ===== src/Search.antt =====
-- frontend/src/components/SearchBar.tsx: the filter of SearchBar and the delayed query of
-- SearchBarServerSide. `Bar` has them, `Lost` is about the second.
pub mod Bar
pub mod Lost
