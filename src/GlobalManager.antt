-- ===== src/GlobalManager.antt =====
-- core/GlobalManager.
pub mod Registration
pub mod Monitor
