-- ===== src/Users.antt =====
-- frontend/src/lib/usermeta.ts and the handlers of frontend/src/Dashboard.tsx. `Meta` has what is stored for
-- a user, `Stored` what comes back of it, `Accounts` the page of the accounts, and `Forms` is about
-- its forms.
pub mod Meta
pub mod Stored
pub mod Accounts
pub mod Forms
