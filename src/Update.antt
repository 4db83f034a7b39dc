-- ===== src/Update.antt =====
-- internal/update/update.go: the update checker.
pub mod Versions
