-- ===== src/Runner.antt =====
-- core/TestcaseRunner: which generator and which evaluator a runner talks to.
pub mod Partners
pub mod Config
pub mod Main
pub mod Execution
pub mod Multi
pub mod Gdb
