-- ===== src/Pool.antt =====
-- The connection pools of components/database/providers/postgresql/session.
pub mod Blocking
pub mod Slots
pub mod Config
