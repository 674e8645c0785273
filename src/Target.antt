-- ===== src/Target.antt =====
-- The tasks that name the worker they go to.
pub mod Defs
pub mod Owned
mod Examples
