-- ===== src/Runner/Main.antt =====
-- core/TestcaseRunner/TRMainWorker: the loop of a runner. A testcase is fetched from a generator, run,
-- and sent with its result to an evaluator. What the partners answer and what the run yields is an
-- argument.
pub mod Accounting
pub mod Turns
use fluffi.Base.{
  ℕ, ◌+◌, ◌/◌, Bool, true, false, ◌&&◌, Option, none, some, List, [], ◌∷◌, ◌++◌, if◌then◌else◌, ltb,
  length, take, drop, Text, codes, text_eq,
}
use fluffi.Testcase.{ServiceDescriptor, TestcaseId, generate_testcase_path_and_filename}
use fluffi.Collector.{Collector, Files, mark_file_for_delete}
use fluffi.Evaluator.Blocks.{Block}
use fluffi.Evaluator.Results.{
  ExitType, clean_exit, hang, exception_access_violation, exception_other, TestResult,
}
use fluffi.Transfer.Chunks.{Bytes, load_testcase_chunk}
use fluffi.Transfer.Storing.{Meets, Outcome, lacks_fuel, exited, returned, store_testcase_file}
use fluffi.Runner.Partners.{Partner, host, nobody, process_exit, PartnerManager, get_next_partner}

-- core/SharedCode/DebugExecutionOutput
pub data Termination : Type 0 where
  clean other access_violation timeout err : Termination

pub record ExecutionOutput : Type 0 where
  pub termination_type : Termination
  pub termination_description : Text
  pub first_crash : Text
  pub last_crash : Text
  pub covered_basic_blocks : List Block
  pub has_full_coverage : Bool

abbrev pub internal_error : Text
internal_error = codes "Internal Error: "

unfoldable pub no_blocks : ExitType → Text → ExecutionOutput → TestResult
no_blocks e footprint o = record {
  exit_type = e;
  blocks = [];
  crash_footprint = footprint;
  has_full_coverage = o.has_full_coverage;
}

unfoldable pub result_of : Termination → ExecutionOutput → TestResult
unfolding no_blocks
result_of clean o = record {
  exit_type = clean_exit;
  blocks = o.covered_basic_blocks;
  crash_footprint = [];
  has_full_coverage = o.has_full_coverage;
}
result_of err o = no_blocks exception_other (internal_error ++ o.termination_description) o
result_of other o = no_blocks exception_other (o.first_crash ++ (codes "-" ++ o.last_crash)) o
result_of access_violation o =
    no_blocks exception_access_violation (o.first_crash ++ (codes "-" ++ o.last_crash)) o
result_of timeout o = no_blocks hang [] o

-- The run itself, `execute`, is an argument.
unfoldable pub fuzz_test_case :
    (TestcaseId → Bool → ExecutionOutput) → TestcaseId → Bool → TestResult
unfolding result_of
fuzz_test_case execute id force = result_of (execute id force).termination_type (execute id force)

unfoldable pub is_other : ExitType → Bool
is_other exception_other = true
is_other clean_exit = false
is_other hang = false
is_other exception_access_violation = false

-- Such results are not for the evaluator.
unfoldable pub is_internal_error : TestResult → Bool
unfolding is_other
is_internal_error r = is_other r.exit_type && text_eq (take 16 r.crash_footprint) internal_error

pub record GetTestcaseResponse : Type 0 where
  pub success : Bool
  pub id : TestcaseId
  pub parent_id : TestcaseId
  pub force_full_coverage : Bool
  pub testcase_first_chunk : Bytes
  pub is_last_chunk : Bool

pub record PutTestResultRequest : Type 0 where
  pub id : TestcaseId
  pub parent_id : TestcaseId
  pub result : TestResult
  pub testcase_first_chunk : Bytes
  pub is_last_chunk : Bool
  pub sd_of_runner : ServiceDescriptor

-- The messages that were slow, the latest last, and whether all of the history is.
unfoldable pub all_true : List Bool → Bool
all_true [] = true
all_true (b ∷ bs) = b && all_true bs

unfoldable pub shift : Bool → List Bool → List Bool
shift slow history = drop 1 history ++ slow ∷ []

pub record Runner : Type 0 where
  pub number_of_processed_testcases : ℕ
  pub collector : Collector
  pub warnhist_pre : List Bool
  pub warnhist_post : List Bool

-- What a turn meets: the draws of the partners, the generator's answer, what the storing of its file
-- meets, the run, what the file holds then, the evaluator's answer, and the durations of fetching and
-- pushing in milliseconds.
pub record World : Type 0 where
  pub generators : PartnerManager
  pub evaluators : PartnerManager
  pub draw_generator : ℕ → ℕ
  pub draw_evaluator : ℕ → ℕ
  pub generator_answer : Text → Option GetTestcaseResponse
  pub storing : Meets
  pub execute : TestcaseId → Bool → ExecutionOutput
  pub last_chunk_before : Bool
  pub file_then : Files → Text → Option Bytes
  pub evaluator_answer : Text → PutTestResultRequest → Option Bool
  pub fetch_ms : ℕ
  pub push_ms : ℕ

-- The end of a turn: where the code goes on with the next, and what it pushed to whom.
pub data End : Type 0 where
  no_partner no_testcase internal : End
  push_failed pushed : Text → PutTestResultRequest → End

pub data TurnResult : Type 0 where
  out_of_fuel ends_process : TurnResult
  turned : End → Bool → Bool → Runner → Files → TurnResult

unfoldable pub mark_testcase : TestcaseId → Text → Runner → Runner
unfolding mark_file_for_delete
mark_testcase id dir r = record r {
  collector = mark_file_for_delete (generate_testcase_path_and_filename id dir) r.collector;
}

-- The request, and the runner, which marks the file behind its last chunk.
unfoldable pub build_push :
    ℕ
    → ServiceDescriptor
    → Text
    → World
    → TestResult
    → TestcaseId
    → TestcaseId
    → Runner
    → Files
    → PutTestResultRequest × Runner
unfolding load_testcase_chunk mark_testcase
build_push chunk_size me dir w result id parent r files =
    let file = w.file_then files (generate_testcase_path_and_filename id dir) in
    let (bytes, last) = load_testcase_chunk chunk_size w.last_chunk_before 0 file in
    (
      record {
        id = id;
        parent_id = parent;
        result = result;
        testcase_first_chunk = bytes;
        is_last_chunk = last;
        sd_of_runner = me;
      },
      if last then mark_testcase id dir r else r,
    )

-- No answer and a refusal are failures.
unfoldable pub accepted : Option Bool → Bool
accepted none = false
accepted (some success) = success

-- The performance warnings, which only a turn to the end updates.
unfoldable pub warn : World → TestResult → Text → PutTestResultRequest → Runner → Files → TurnResult
unfolding all_true shift
warn w result evaluator push r files =
    let pre = shift (ltb 10 w.fetch_ms) r.warnhist_pre in
    let post = shift (ltb (length result.blocks / 1000 + 15) w.push_ms) r.warnhist_post in
    turned (pushed evaluator push) (all_true pre) (all_true post)
      (record r { warnhist_pre = pre; warnhist_post = post }) files

unfoldable pub push_testcase_with_results :
    World
    → Text
    → TestResult
    → TestcaseId
    → Text
    → Files
    → PutTestResultRequest × Runner
    → TurnResult
unfolding accepted warn mark_testcase
push_testcase_with_results w dir result id evaluator files (push, r) =
    if accepted (w.evaluator_answer evaluator push)
    then warn w result evaluator push r files
    else turned (push_failed evaluator push) false false (mark_testcase id dir r) files

module _ (chunk_size : ℕ) (me : ServiceDescriptor) (dir : Text) where
  unfoldable pub process_testcase : World → Text → GetTestcaseResponse → Runner → Files → TurnResult
  unfolding fuzz_test_case is_internal_error mark_testcase build_push push_testcase_with_results
  process_testcase w evaluator t r files =
      let result = fuzz_test_case w.execute t.id t.force_full_coverage in
      let r' : Runner = record r {
        number_of_processed_testcases = r.number_of_processed_testcases + 1;
      } in
      if is_internal_error result
      then turned internal false false (mark_testcase t.id dir r') files
      else push_testcase_with_results w dir result t.id evaluator files
          (build_push chunk_size me dir w result t.id t.parent_id r' files)

  unfoldable pub after_storing : World → Text → GetTestcaseResponse → Runner → Outcome → TurnResult
  unfolding process_testcase
  after_storing w evaluator t r lacks_fuel = out_of_fuel
  after_storing w evaluator t r exited = ends_process
  after_storing w evaluator t r (returned false bytes g files) =
      turned no_testcase false false (record r { collector = g }) files
  after_storing w evaluator t r (returned true bytes g files) =
      process_testcase w evaluator t (record r { collector = g }) files

  unfoldable pub get_testcase :
      World → Text → Option GetTestcaseResponse → Runner → Files → TurnResult
  unfolding after_storing store_testcase_file
  get_testcase w evaluator none r files = turned no_testcase false false r files
  get_testcase w evaluator (some t) r files =
      if t.success
      then after_storing w evaluator t r (
          store_testcase_file w.storing t.id dir t.testcase_first_chunk t.is_last_chunk r.collector
            files)
      else turned no_testcase false false r files

  -- An empty address is no partner, as is the empty result.
  unfoldable pub with_evaluator : World → Text → Partner → Runner → Files → TurnResult
  unfolding get_testcase
  with_evaluator w generator process_exit r files = ends_process
  with_evaluator w generator nobody r files = turned no_partner false false r files
  with_evaluator w generator (host evaluator) r files =
      if text_eq evaluator []
      then turned no_partner false false r files
      else get_testcase w evaluator (w.generator_answer generator) r files

  unfoldable pub with_generator : World → Partner → Runner → Files → TurnResult
  unfolding with_evaluator get_next_partner
  with_generator w process_exit r files = ends_process
  with_generator w nobody r files = turned no_partner false false r files
  with_generator w (host generator) r files =
      if text_eq generator []
      then turned no_partner false false r files
      else with_evaluator w generator (get_next_partner w.draw_evaluator w.evaluators) r files

  -- A turn of the loop once the configuration is there.
  unfoldable pub runner_turn : World → Runner → Files → TurnResult
  unfolding with_generator get_next_partner
  runner_turn w r files = with_generator w (get_next_partner w.draw_generator w.generators) r files
