-- ===== src/Evaluator.antt =====
-- core/TestcaseEvaluator: the queue of test outcomes, the cache of covered blocks and the decision
-- which testcases are worth keeping.
pub mod Blocks
pub mod Results
pub mod Coverage
