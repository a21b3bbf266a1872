-- ===== src/Manager.antt =====
-- internal/manager: the accounts of one manager.
pub mod Scope
