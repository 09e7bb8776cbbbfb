-- ===== src/Upgrade.antt =====
-- internal/upgrade: versions and the upgrade manager.
pub mod Version
pub mod Manager
pub mod Query
