-- ===== src/Api.antt =====
-- tms/api: roles and capabilities.
pub mod Permissions
