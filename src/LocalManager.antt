-- ===== src/LocalManager.antt =====
-- core/LocalManager.
pub mod Registration
pub mod Weights
pub mod Welcome
pub mod Database
pub mod Evaluation
