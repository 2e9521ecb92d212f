-- ===== src/Evaluator/Results.antt =====
-- core/TestcaseEvaluator/TETestResultManager and PutTestResultRequestHandler: the outcomes that
-- runners send in wait in a queue.
pub mod Handler
use fluffi.Base.{
  ℕ, Bool, true, false, ◌||◌, Option, none, some, List, [], ◌∷◌, ◌++◌, if◌then◌else◌, length, Text,
}
use fluffi.Testcase.{TestcaseId, id_eq, generate_testcase_path_and_filename}
use fluffi.Collector.{Collector, mark_file_for_delete}
use fluffi.Evaluator.Blocks.{Block}

pub data ExitType : Type 0 where
  clean_exit hang exception_access_violation exception_other : ExitType

pub record TestResult : Type 0 where
  pub exit_type : ExitType
  pub blocks : List Block
  pub crash_footprint : Text
  pub has_full_coverage : Bool

pub record TestOutcome : Type 0 where
  pub id : TestcaseId
  pub parent_id : TestcaseId
  pub test_result : TestResult

abbrev pub Outcomes : Type 0
Outcomes = List TestOutcome

unfoldable pub push_new_test_outcome : TestOutcome → Outcomes → Outcomes
push_new_test_outcome t q = q ++ (t ∷ [])

unfoldable pub is_there_already_a_tod_for : TestcaseId → Outcomes → Bool
is_there_already_a_tod_for i [] = false
is_there_already_a_tod_for i (t ∷ q) = id_eq t.id i || is_there_already_a_tod_for i q

-- `none` is the null pointer.
unfoldable pub pop_test_outcome_for_evaluation : Outcomes → Option TestOutcome × Outcomes
pop_test_outcome_for_evaluation [] = (none, [])
pop_test_outcome_for_evaluation (t ∷ q) = (some t, q)

unfoldable pub get_test_outcome_deque_size : Outcomes → ℕ
get_test_outcome_deque_size q = length q

-- The destructor marks the files of what is left.
unfoldable pub destruct : Text → Outcomes → Collector → Collector
destruct dir [] g = g
destruct dir (t ∷ q) g =
    destruct dir q (mark_file_for_delete (generate_testcase_path_and_filename t.id dir) g)

-- The handler of a PutTestResultRequest: the answer's success, and the queue. `stored` is the
-- outcome of Util::storeTestcaseFileOnDisk.
unfoldable pub handle_put_test_result : Bool → TestOutcome → Outcomes → Bool × Outcomes
unfolding push_new_test_outcome is_there_already_a_tod_for
handle_put_test_result stored t q =
    if stored then (true, push_new_test_outcome t q) else (is_there_already_a_tod_for t.id q, q)
