-- ===== src/Core.antt =====
-- internal/core.
pub mod Plugins
pub mod Loading
