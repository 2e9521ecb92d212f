-- ===== src/Generator.antt =====
-- core/TestcaseGenerator: the queues of a test case generator, the worker that cleans them and
-- the worker that fills them.
pub mod Manager
pub mod Cleaner
pub mod Filler
