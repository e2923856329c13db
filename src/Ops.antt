-- ===== src/Ops.antt =====
-- tms/ops: the safe restart, catalogs, changes of the configuration and the rules of resource groups.
pub mod Sequence
pub mod Repository
pub mod Service
pub mod Patterns
pub mod Catalogs
pub mod CatalogStore
pub mod CatalogService
pub mod ConfigEdit
pub mod ResourceGroupRules
