-- ===== src/Health.antt =====
-- The health model: states, tests and the engine (tms/health).
pub mod States
pub mod Context
pub mod Tests
pub mod Engine
