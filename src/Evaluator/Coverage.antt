-- ===== src/Evaluator/Coverage.antt =====
-- core/TestcaseEvaluator/CoverageEvaluator: whether the outcome of a testcase is worth keeping, the
-- request that reports it, and the time that the next request may take.
pub mod Decision
use fluffi.Base.{
  ℕ, ◌+◌, ◌-◌, ◌≡◌, Bool, true, false, ◌&&◌, ◌||◌, not, Option, none, some, List, [], ◌∷◌, ltb,
  if◌then◌else◌, Text, codes, text_eq, ℤ, pos, negsuc, sub_ℕ,
}
use fluffi.Testcase.{ServiceDescriptor, TestcaseId, generate_testcase_path_and_filename}
use fluffi.Collector.{Collector, mark_file_for_delete}
use fluffi.Evaluator.Blocks.{Block, Cache, is_block_in_cache_and_add_it_if_not, sorted_set}
use fluffi.Evaluator.Results.{
  ExitType, clean_exit, hang, exception_access_violation, exception_other, TestResult, TestOutcome,
}

pub data TestEvaluation : Type 0 where
  keep discard : TestEvaluation

-- CommInt::timeoutFileTransferMessage, in milliseconds.
abbrev pub timeout_file_transfer : ℕ
timeout_file_transfer = 100_000

pub record Evaluator : Type 0 where
  pub testcase_dir : Text
  pub cache : Cache
  pub collector : Collector
  pub send_timeout : ℕ

-- The optional parts of a PutTestEvaluationRequest.
pub record Kept : Type 0 where
  pub parent_rating_delta : ℤ
  pub result : TestResult
  pub is_last_chunk : Bool
  pub testcase_first_chunk : Text
  pub sd_of_evaluator : ServiceDescriptor

pub record Request : Type 0 where
  pub id : TestcaseId
  pub parent_id : TestcaseId
  pub eval : TestEvaluation
  pub optional : Option Kept

-- The loop over the blocks: whether one is new, and the cache.
unfoldable pub scan_blocks : List Block → Bool → Cache → Bool × Cache
unfolding is_block_in_cache_and_add_it_if_not
scan_blocks [] has_new c = (has_new, c)
scan_blocks (b ∷ bs) has_new c =
    let (was_there, c') = is_block_in_cache_and_add_it_if_not b c in
    scan_blocks bs (has_new || not was_there) c'

-- `exit_type == ExitType::CleanExit`
unfoldable pub is_clean : ExitType → Bool
is_clean clean_exit = true
is_clean hang = false
is_clean exception_access_violation = false
is_clean exception_other = false

-- The deltas of the class: 100 for new blocks, -10 for a hang or an exception.
unfoldable pub generate_parent_rating_delta : ExitType → Bool → Bool → ℤ
generate_parent_rating_delta exit has_new is_special =
    if is_special then pos 0 else sub_ℕ (if has_new then 100 else 0) (penalty exit)
  where
    penalty : ExitType → ℕ
    penalty clean_exit = 0
    penalty hang = 10
    penalty exception_access_violation = 10
    penalty exception_other = 10

unfoldable pub copy_test_result_but_strip_duplicate_blocks : TestResult → TestResult
copy_test_result_but_strip_duplicate_blocks r = record r { blocks = sorted_set r.blocks [] }

unfoldable pub reported_result : TestResult → TestResult
unfolding copy_test_result_but_strip_duplicate_blocks
reported_result r =
    if r.has_full_coverage then copy_test_result_but_strip_duplicate_blocks r else record {
      exit_type = r.exit_type;
      blocks = [];
      crash_footprint = r.crash_footprint;
      has_full_coverage = false;
    }

unfoldable pub is_keep : TestEvaluation → Bool
is_keep keep = true
is_keep discard = false

unfoldable pub update_send_timeout : Bool → TestEvaluation → ExitType → Evaluator → Evaluator
unfolding is_keep is_clean
update_send_timeout successful eval exit e =
    if successful
    then (if ltb timeout_file_transfer (e.send_timeout - 1000) && (is_keep eval && is_clean exit)
        then record e { send_timeout = e.send_timeout - 1000 }
        else e)
    else record e { send_timeout = e.send_timeout + 5000 }

unfoldable pub is_special : TestOutcome → Bool
is_special t = text_eq t.parent_id.service_descriptor.guid (codes "special")

unfoldable pub evaluation : TestOutcome → Bool → TestEvaluation
unfolding is_special is_clean
evaluation t has_new =
    if not (is_special t) && (is_clean t.test_result.exit_type && not has_new)
    then discard
    else keep

-- What the evaluator meets: the first chunk of the testcase's file and whether it is the last, its
-- own descriptor, and whether the request is answered.
pub record Surroundings : Type 0 where
  pub first_chunk : Text
  pub is_last_chunk : Bool
  pub own : ServiceDescriptor
  pub answered : Bool

unfoldable pub build_request : Surroundings → TestOutcome → Bool → Request
unfolding generate_parent_rating_delta reported_result
build_request s t has_new = record {
  id = t.id;
  parent_id = t.parent_id;
  eval = evaluation t has_new;
  optional = elim (evaluation t has_new) [
    | discard ↦ none
    | keep ↦ some (record {
      parent_rating_delta =
          generate_parent_rating_delta t.test_result.exit_type has_new (is_special t);
      result = reported_result t.test_result;
      is_last_chunk = s.is_last_chunk;
      testcase_first_chunk = s.first_chunk;
      sd_of_evaluator = s.own;
    })
  ];
}

-- A discarded testcase's file goes, and so does that of a kept one that fits into one chunk.
unfoldable pub file_is_done : Surroundings → TestEvaluation → Bool
file_is_done s discard = true
file_is_done s keep = s.is_last_chunk

-- The request that is sent, and the state afterwards.
unfoldable pub process_test_outcome : Surroundings → TestOutcome → Evaluator → Request × Evaluator
unfolding scan_blocks evaluation build_request file_is_done update_send_timeout
process_test_outcome s t e =
    let (has_new, cache') = scan_blocks t.test_result.blocks false e.cache in
    let g =
      if file_is_done s (evaluation t has_new)
      then mark_file_for_delete (generate_testcase_path_and_filename t.id e.testcase_dir)
          e.collector
      else e.collector in
    (
      build_request s t has_new,
      update_send_timeout s.answered (evaluation t has_new) t.test_result.exit_type
          (record e { cache = cache'; collector = g }),
    )
