-- ===== src/Tests/Verdicts.antt =====
-- Verdicts at a database that executes everything, and at one that takes no testcase.
use fluffi.Base.{
  ◌≡◌, refl, Bool, true, false, none, some, List, [], ◌∷◌, Text, codes, text_eq, arith, pos,
  contains, text_instance, insert,
}
use fluffi.Testcase.{ServiceDescriptor, TestcaseId, id_eq, generate_testcase_path_and_filename}
use fluffi.Collector.{Collector, new_collector, mark_file_for_delete}
use fluffi.Evaluator.Blocks.{Block, block_instance, sorted_set}
use fluffi.Evaluator.Results.{ExitType, clean_exit, hang}
use fluffi.Transfer.Storing.{Meets, returned, store_testcase_file}
use fluffi.LocalManager.Database.{
  TestCaseType, Statement, add_rating, delete_interesting, insert_interesting, insert_blocks,
  set_type, Database, some_guid_too_long, add_delta_to_testcase_rating,
  add_entry_to_interesting_testcases, add_blocks_to_covered_blocks, set_testcase_type,
}
use fluffi.LocalManager.Evaluation.{
  keep, PutTestEvaluationRequest, Handler, Situation, responded, mark_testcase_as_completed,
  handle_put_test_evaluation,
}
use fluffi.LocalManager.Evaluation.Completed.{recorded, handle-records}
use fluffi.LocalManager.Evaluation.Blocked.{RefusesAll, blocked-RefusesAll}
use fluffi.LocalManager.Evaluation.Unlocking.{Unlocked, handle-Unlocked}

abbrev willing : Database
willing = record {
  executes = λ log s. true;
  row_id = λ log id. some 7;
  parent_row = λ log id. none;
}

takes : Statement → Bool
takes (insert_interesting i p r b t) = false
takes other = true

abbrev full : Database
full = record willing { executes = λ log s. takes s }

abbrev generator : ServiceDescriptor
generator = record { service_host_and_port = codes "tg:1"; guid = codes "g" }

abbrev seed : TestcaseId
seed = record { service_descriptor = generator; local_id = 1 }

abbrev child : TestcaseId
child = record { service_descriptor = generator; local_id = 2 }

abbrev one_block : List Block
one_block = record { module_id = pos 1; rva = 4096 } ∷ []

abbrev kept : ExitType → PutTestEvaluationRequest
kept e = record {
  id = child;
  parent_id = seed;
  parent_rating_delta = pos 5;
  eval = keep;
  result = record {
    exit_type = e;
    blocks = one_block;
    crash_footprint = [];
    has_full_coverage = true;
  };
  testcase_first_chunk = codes "abc";
  is_last_chunk = true;
}

abbrev at_once : Meets
at_once = record {
  fuel = 1;
  stop = λ n. false;
  draws = λ n k. record { random = 0; removable = true };
  can_open = true;
  ask = λ n. none;
}

abbrev noon : Situation
noon = record { now = 2000; storing = at_once; files = []; bytes_of = λ files name. codes "abc" }

abbrev empty_handler : Handler
empty_handler = record {
  completed_not_yet_pushed = [];
  time_of_last_flush = 1500;
  collector = new_collector 1000;
  log = [];
}

abbrev dir : Text
dir = codes "/t"

abbrev marked : Collector
marked = record (new_collector 1000) {
  set_of_files_to_delete = generate_testcase_path_and_filename child dir ∷ [];
}

abbrev kept_handler : Handler
kept_handler = record empty_handler {
  completed_not_yet_pushed = child ∷ [];
  collector = marked;
  log =
      set_type child TestCaseType.population
      ∷ insert_blocks (record { testcase = 7; module_byte = 1; offset = 4096 } ∷ [])
      ∷ insert_interesting child seed (pos 10000) (codes "abc") TestCaseType.locked
      ∷ delete_interesting child
      ∷ add_rating seed (pos 5)
      ∷ [];
}

abbrev guid_50 : Text
guid_50 = codes "01234567890123456789012345678901234567890123456789"

abbrev long_id : TestcaseId
long_id = record {
  service_descriptor = record { service_host_and_port = codes "tg:2"; guid = guid_50 };
  local_id = 1;
}

abbrev blocked_handler : Handler
blocked_handler = record empty_handler { completed_not_yet_pushed = long_id ∷ [] }

abbrev late : Situation
late = record noon { now = 4000 }

abbrev late_verdicts : List (Situation × PutTestEvaluationRequest)
late_verdicts = (late, kept clean_exit) ∷ ((late, kept hang) ∷ [])

abbrev hang_handler : Handler
hang_handler = record empty_handler { completed_not_yet_pushed = child ∷ [] }

keep_run :
    handle_put_test_evaluation willing 1000 dir noon (kept clean_exit) empty_handler
    ≡ responded true kept_handler
unfolding handle_put_test_evaluation add_delta_to_testcase_rating store_testcase_file contains
    add_entry_to_interesting_testcases mark_file_for_delete add_blocks_to_covered_blocks insert
    sorted_set new_collector set_testcase_type text_eq
keep_run = refl

handle-records_example : recorded child kept_handler ≡ true
unfolding id_eq text_eq
handle-records_example =
    handle-records willing child 1000 dir noon (kept clean_exit) empty_handler kept_handler true
      keep_run refl

handle-Unlocked_example : Unlocked willing (kept clean_exit) kept_handler.log
handle-Unlocked_example =
    handle-Unlocked willing 1000 dir noon (kept clean_exit) refl refl empty_handler kept_handler
      keep_run

too_long : some_guid_too_long blocked_handler.completed_not_yet_pushed ≡ true
unfolding some_guid_too_long
too_long = refl

blocked-RefusesAll_example : RefusesAll willing 1000 dir late_verdicts blocked_handler
blocked-RefusesAll_example =
    blocked-RefusesAll willing 1000 dir late_verdicts blocked_handler too_long (omega arith)

hang_marked :
    mark_testcase_as_completed full 1000 dir 2000 child empty_handler ≡ (true, hang_handler)
unfolding mark_testcase_as_completed
hang_marked = refl

hang_rated :
    add_delta_to_testcase_rating full seed (pos 5) [] ≡ (true, add_rating seed (pos 5) ∷ [])
unfolding add_delta_to_testcase_rating takes
hang_rated = refl

hang_stored :
    store_testcase_file at_once child dir (codes "abc") true (new_collector 1000) []
    ≡ returned true
        (some (codes "abc"))
        (new_collector 1000)
        (generate_testcase_path_and_filename child dir ∷ [])
unfolding store_testcase_file contains insert
hang_stored = refl

hang_deleted : takes (delete_interesting child) ≡ true
unfolding takes
hang_deleted = refl

hang_refused : takes (insert_interesting child seed (pos 0) (codes "abc") TestCaseType.hang) ≡ false
unfolding takes
hang_refused = refl
