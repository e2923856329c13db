-- ===== src/Core.antt =====
-- tms/core: the audit of write actions, sessions and local accounts.
pub mod Audit
pub mod Sessions
pub mod LocalAuth
