-- ===== src/Tests.antt =====
-- The theorems at concrete inputs.
pub mod Global
pub mod Data
pub mod Queues
pub mod Outcomes
pub mod Files
pub mod Channels
pub mod Local
pub mod Network
pub mod Runner
pub mod Executors
pub mod Verdicts
