-- ===== src/LocalManager/Weights.antt =====
-- core/LocalManager/WorkerWeightCalculator: how much load the generators and evaluators are given.
-- The weights are of type `uint32_t`.
pub mod Ranking
use fluffi.Base.{
  ℕ, ◌+◌, ◌-◌, ◌%◌, ◌^◌, max, Bool, true, false, ltb, if◌then◌else◌, Option, none, some, List, [],
  ◌∷◌, ◌++◌, Text, codes, ℤ, pos, negsuc, stoi,
}
use fluffi.Generator.Cleaner.{Settings, setting}
use fluffi.LocalManager.Registration.{
  AgentType, testcase_generator, testcase_runner, testcase_evaluator, global_manager, local_manager,
}

-- The status of an agent: a map of texts.
pub record StatusOfInstance : Type 0 where
  pub type : AgentType
  pub status : Settings
  pub weight : ℕ

-- `score += stoi(…)`, modulo 2 ^ 32.
abbrev pub add_score : Option ℤ → ℕ
add_score none = 100
add_score (some (pos n)) = (100 + n) % 2 ^ 32
add_score (some (negsuc n)) = (100 + (2 ^ 32 - (n + 1))) % 2 ^ 32

unfoldable pub generator_score : Option Text → ℕ
generator_score none = 100
generator_score (some v) = add_score (stoi v)

unfoldable pub calculate_generator_weight : StatusOfInstance → ℕ
unfolding generator_score setting
calculate_generator_weight s = generator_score (setting (codes "TestCasesQueueSize") s.status)

-- `max(100, 1000 - stoi(…))`, where a difference beyond the values of `int` wraps around to a negative
-- one.
abbrev pub lower_score : Option ℤ → ℕ
lower_score none = 100
lower_score (some (pos n)) = max 100 (1000 - n)
lower_score (some (negsuc n)) = if ltb (1001 + n) (2 ^ 31) then 1001 + n else 100

unfoldable pub evaluator_score : Option Text → ℕ
evaluator_score none = 100
evaluator_score (some v) = lower_score (stoi v)

unfoldable pub calculate_evaluator_weight : StatusOfInstance → ℕ
unfolding evaluator_score setting
calculate_evaluator_weight s = evaluator_score (setting (codes "TestEvaluationsQueueSize") s.status)

-- The vectors of generators and of evaluators.
pub record Calculator : Type 0 where
  pub generator_status : List StatusOfInstance
  pub evaluator_status : List StatusOfInstance

unfoldable pub push_status : StatusOfInstance → AgentType → Calculator → Calculator
unfolding calculate_generator_weight calculate_evaluator_weight
push_status s testcase_generator c = record c {
  generator_status =
      c.generator_status ++ (record s { weight = calculate_generator_weight s } ∷ []);
}
push_status s testcase_evaluator c = record c {
  evaluator_status =
      c.evaluator_status ++ (record s { weight = calculate_evaluator_weight s } ∷ []);
}
push_status s testcase_runner c = c
push_status s global_manager c = c
push_status s local_manager c = c

-- The vector of the database is emptied from its back, which the recursion reaches first.
unfoldable pub status_loop : List StatusOfInstance → Calculator
unfolding push_status
status_loop [] = record { generator_status = []; evaluator_status = [] }
status_loop (s ∷ ss) = push_status s s.type (status_loop ss)

unfoldable pub update_status_information : List StatusOfInstance → Calculator → Calculator
unfolding status_loop
update_status_information statuses c = status_loop statuses
