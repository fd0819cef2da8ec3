-- ===== src/Access.antt =====
-- Access control: `Principal` and `authorize` of security.py, the rules of policy.py and the
-- policy rows of persistence.py.
pub mod Json
pub mod Condition
pub mod Policy
pub mod Decision
pub mod Grants
pub mod Audit
pub mod Upsert
mod Examples
