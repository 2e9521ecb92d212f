-- ===== src/LocalManager/Evaluation.antt =====
-- core/LocalManager/PutTestEvaluationRequestHandler: what the local manager does with an evaluator's
-- verdict. Completed testcases are collected in a set and written to the database in bulk.
pub mod Logs
pub mod Completed
pub mod Unlocking
pub mod Blocked
use fluffi.Base.{
  ℕ, ◌+◌, ◌-◌, Bool, true, false, ◌||◌, Option, none, some, List, [], ◌∷◌, if◌then◌else◌, ltb,
  length, Text, ℤ, pos,
}
use fluffi.Testcase.{ServiceDescriptor, TestcaseId, id_eq, generate_testcase_path_and_filename}
use fluffi.Collector.{Collector, Files, mark_file_for_delete}
use fluffi.Evaluator.Blocks.{Block, block_instance, sorted_set}
use fluffi.Evaluator.Results.{
  ExitType, clean_exit, hang, exception_access_violation, exception_other, TestResult,
}
use fluffi.Transfer.Chunks.{Bytes}
use fluffi.Transfer.Storing.{Meets, Outcome, lacks_fuel, exited, returned, store_testcase_file}
use fluffi.LocalManager.Database.{
  TestCaseType, population, locked, Log, Database, add_entries_to_completed_testcases,
  add_delta_to_testcase_rating, add_entry_to_interesting_testcases, add_entry_to_crash_descriptions,
  add_blocks_to_covered_blocks, set_testcase_type,
}

pub data Verdict : Type 0 where
  discard keep : Verdict

pub record PutTestEvaluationRequest : Type 0 where
  pub id : TestcaseId
  pub parent_id : TestcaseId
  pub parent_rating_delta : ℤ
  pub eval : Verdict
  pub result : TestResult
  pub testcase_first_chunk : Bytes
  pub is_last_chunk : Bool

-- The handler with the log of the database and the collector that it shares.
pub record Handler : Type 0 where
  pub completed_not_yet_pushed : List TestcaseId
  pub time_of_last_flush : ℕ
  pub collector : Collector
  pub log : Log

unfoldable pub id_among : TestcaseId → List TestcaseId → Bool
id_among id [] = false
id_among id (x ∷ xs) = id_eq x id || id_among id xs

unfoldable pub insert_id : TestcaseId → List TestcaseId → List TestcaseId
unfolding id_among
insert_id id ids = if id_among id ids then ids else id ∷ ids

unfoldable pub type_of : ExitType → TestCaseType
type_of clean_exit = population
type_of hang = TestCaseType.hang
type_of exception_access_violation = TestCaseType.exception_access_violation
type_of exception_other = TestCaseType.exception_other

-- What a call meets: the time in milliseconds, what the storing of the file meets, the files, and the
-- bytes that are read back.
pub record Situation : Type 0 where
  pub now : ℕ
  pub storing : Meets
  pub files : Files
  pub bytes_of : Files → Text → Bytes

pub data Response : Type 0 where
  out_of_fuel process_exit : Response
  responded : Bool → Handler → Response

-- A step of the database, with what is done only where it succeeded.
unfoldable pub then_on_success : Bool × Log → (Log → Bool × Log) → Bool × Log
then_on_success (true, log) next = next log
then_on_success (false, log) next = (false, log)

unfoldable pub after_flush : ℕ → Handler → Bool × Log → Bool × Handler
after_flush now h (true, log) =
    (true, record h { completed_not_yet_pushed = []; time_of_last_flush = now; log = log })
after_flush now h (false, log) = (false, record h { log = log })

unfoldable pub respond_with : Handler → Bool × Log → Response
respond_with h (success, log) = responded success (record h { log = log })

module _ (db : Database) where
  -- The rows that depend on the testcase's own.
  unfoldable pub add_details : ExitType → PutTestEvaluationRequest → Log → Bool × Log
  unfolding then_on_success
  add_details clean_exit q log =
      then_on_success (add_blocks_to_covered_blocks db q.id (sorted_set q.result.blocks []) log)
        (set_testcase_type db q.id population)
  add_details hang q log = (true, log)
  add_details exception_access_violation q log =
      add_entry_to_crash_descriptions db q.id q.result.crash_footprint log
  add_details exception_other q log =
      add_entry_to_crash_descriptions db q.id q.result.crash_footprint log

  -- A testcase of the population is inserted locked, and unlocked behind its blocks.
  unfoldable pub add_testcase : ExitType → PutTestEvaluationRequest → Bytes → Log → Bool × Log
  unfolding then_on_success add_details type_of
  add_testcase clean_exit q bytes log =
      then_on_success
        (add_entry_to_interesting_testcases db q.id q.parent_id (pos 10000) bytes locked log)
        (add_details clean_exit q)
  add_testcase e q bytes log =
      then_on_success
        (add_entry_to_interesting_testcases db q.id q.parent_id (pos 0) bytes (type_of e) log)
        (add_details e q)

module _ (db : Database) (force_flush_after_ms : ℕ) (dir : Text) where
  unfoldable pub mark_testcase_as_completed : ℕ → TestcaseId → Handler → Bool × Handler
  unfolding insert_id after_flush
  mark_testcase_as_completed now id h =
      let ids = insert_id id h.completed_not_yet_pushed in
      let h' : Handler = record h { completed_not_yet_pushed = ids } in
      if ltb 100 (length ids) || ltb force_flush_after_ms (now - h.time_of_last_flush)
      then after_flush now h' (add_entries_to_completed_testcases db ids h.log)
      else (true, h')

  unfoldable pub keep_stored : Situation → PutTestEvaluationRequest → Handler → Outcome → Response
  unfolding respond_with add_testcase
  keep_stored w q h lacks_fuel = out_of_fuel
  keep_stored w q h exited = process_exit
  keep_stored w q h (returned false bytes g files) = responded false (record h { collector = g })
  keep_stored w q h (returned true bytes g files) =
      let name = generate_testcase_path_and_filename q.id dir in
      respond_with (record h { collector = mark_file_for_delete name g })
        (add_testcase db q.result.exit_type q (w.bytes_of files name) h.log)

  unfoldable pub evaluate : Verdict → Situation → PutTestEvaluationRequest → Handler → Response
  unfolding keep_stored
  evaluate discard w q h = responded true h
  evaluate keep w q h = keep_stored w q h (
      store_testcase_file w.storing q.id dir q.testcase_first_chunk q.is_last_chunk h.collector
        w.files)

  unfoldable pub after_rating :
      Situation → PutTestEvaluationRequest → Handler → Bool × Log → Response
  unfolding evaluate
  after_rating w q h (true, log) = evaluate q.eval w q (record h { log = log })
  after_rating w q h (false, log) = responded false (record h { log = log })

  unfoldable pub after_completion : Situation → PutTestEvaluationRequest → Bool × Handler → Response
  unfolding after_rating
  after_completion w q (true, h) =
      after_rating w q h (add_delta_to_testcase_rating db q.parent_id q.parent_rating_delta h.log)
  after_completion w q (false, h) = responded false h

  unfoldable pub handle_put_test_evaluation :
      Situation → PutTestEvaluationRequest → Handler → Response
  unfolding after_completion mark_testcase_as_completed
  handle_put_test_evaluation w q h = after_completion w q (mark_testcase_as_completed w.now q.id h)
