-- ===== src/Account.antt =====
-- The local accounts of local_auth.py: registration, login with its lockout, and sessions.
pub mod Text
pub mod Row
pub mod Register
pub mod Login
pub mod Lockout
pub mod Session
mod Examples
