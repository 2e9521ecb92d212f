-- ===== src/Runner/Multi.antt =====
-- core/TestcaseRunner/TestExecutorDynRioMulti: a testcase in a target that runs on, with a feeder
-- that hands it over, and a second run without instrumentation where the target crashed.
pub mod Restarts
pub mod Readiness
pub mod Terminations
use fluffi.Base.{
  ℕ, ◌+◌, ◌%◌, Bool, true, false, ◌&&◌, not, List, [], ◌++◌, if◌then◌else◌, ◌==◌, Text, codes, ℤ,
}
use fluffi.Evaluator.Blocks.{Block}
use fluffi.Runner.Main.{Termination, clean, other, access_violation, timeout, err, ExecutionOutput}
use fluffi.Runner.Execution.{
  new_output, ends_as, crashes_as, TargetState, still_runs, is_clean, not_reproduced, restart_due,
  count_execution,
}

-- `instrumented` tells how the target was started last.
pub record Multi : Type 0 where
  pub target_and_feeder_okay : Bool
  pub executions_since_last_restart : ℕ
  pub iteration_num_mod2 : ℕ
  pub force_restart_after : ℤ
  pub instrumented : Bool

-- What a run of one testcase meets: whether the next log file is gone in time, the answers of the
-- instrumentation, the message to the feeder and the type of its answer, the log that is read, and
-- the blocks in it. `details` stands behind some error texts.
pub record RunWorld : Type 0 where
  pub next_log_is_gone : Bool
  pub nudge_reset : Bool
  pub reset_answer : ℕ
  pub filename_sent : Bool
  pub feeder_answer : ℕ
  pub nudge_dump : Bool
  pub dump_answer : ℕ
  pub log_found : Bool
  pub log_has_bytes : Bool
  pub covered : List Block
  pub details : Text

abbrev pub RunEnd : Type 0
RunEnd = Bool × ExecutionOutput

unfoldable pub unless_fails : Bool → Text → ExecutionOutput → RunEnd → RunEnd
unfolding ends_as
unless_fails ok text o next = if ok then next else (false, ends_as err text o)

unfoldable pub finish : ExecutionOutput → RunEnd
unfolding ends_as
finish o = (true, ends_as clean (codes "Fuzzcase executed normally!") o)

unfoldable pub parse_coverage : Bool → RunWorld → ExecutionOutput → RunEnd
unfolding unless_fails finish
parse_coverage use_dyn_rio w o =
    if use_dyn_rio
    then unless_fails w.log_found (codes " Could not find DrCov File!") o (
        unless_fails w.log_has_bytes (codes "drcovOutput is of length 0!") o
          (finish (record o { covered_basic_blocks = o.covered_basic_blocks ++ w.covered })))
    else finish o

unfoldable pub dump_coverage : Bool → RunWorld → ExecutionOutput → RunEnd
unfolding unless_fails parse_coverage
dump_coverage use_dyn_rio w o =
    if use_dyn_rio
    then unless_fails w.nudge_dump (codes "dr_nudge_pid failed (2)" ++ w.details) o (
        unless_fails (w.dump_answer == 68)
          (codes "Problem while communicating with dynamoRio (2)!" ++ w.details) o
          (parse_coverage use_dyn_rio w o))
    else parse_coverage use_dyn_rio w o

unfoldable pub wait_for_feeder : Bool → RunWorld → ExecutionOutput → RunEnd
unfolding dump_coverage ends_as crashes_as
wait_for_feeder use_dyn_rio w o =
    if w.feeder_answer == 0x3
    then dump_coverage use_dyn_rio w o
    else if w.feeder_answer == 0x104
    then (false, ends_as err (codes "Communication with feeder was interrupted!") o)
    else if w.feeder_answer == 0x101
    then (false, ends_as timeout (codes "Communication with feeder timed out!") o)
    else if w.feeder_answer == 0x10
    then (
      true,
      crashes_as other (codes "Feeder claims that target crashed!") (codes "FEEDER CLAIMS CRASH") o,
    )
    else (false, ends_as err (codes "Feeder returned a not expected message." ++ w.details) o)

unfoldable pub send_filename : Bool → RunWorld → ExecutionOutput → RunEnd
unfolding unless_fails wait_for_feeder
send_filename use_dyn_rio w o =
    unless_fails w.filename_sent (codes "Problem while sending a fuzzing filename to the feeder!") o
      (wait_for_feeder use_dyn_rio w o)

unfoldable pub run_single_testcase : Bool → RunWorld → ExecutionOutput → RunEnd
unfolding unless_fails send_filename
run_single_testcase use_dyn_rio w o =
    if use_dyn_rio
    then unless_fails w.next_log_is_gone (codes "Could not delete the next drcov file in time!") o (
        unless_fails w.nudge_reset (codes "dr_nudge_pid failed (1):" ++ w.details) o (
          unless_fails (w.reset_answer == 82)
            (codes "Problem while communicating with dynamoRio (1)!" ++ w.details) o
            (send_filename use_dyn_rio w o)))
    else send_filename use_dyn_rio w o

-- The start: the counters are reset before anything can fail.
unfoldable pub attempt_start : Bool → Bool → Multi → Multi
attempt_start use_dyn_rio success e = record e {
  target_and_feeder_okay = success;
  executions_since_last_restart = 0;
  iteration_num_mod2 = if use_dyn_rio then 0 else e.iteration_num_mod2;
  instrumented = use_dyn_rio;
}

-- What an execution meets: the two starts, the two runs, and the target after each.
pub record World : Type 0 where
  pub starts : Bool
  pub run : RunWorld
  pub target : TargetState
  pub starts_again : Bool
  pub run_again : RunWorld
  pub target_then : TargetState

abbrev pub Executed : Type 0
Executed = ExecutionOutput × Multi

unfoldable pub reset : Multi → Multi
reset e = record e { target_and_feeder_okay = false }

-- The second run: its termination, where the first run ended as `original`.
unfoldable pub reproduce : Termination → World → Multi → Executed
unfolding attempt_start reset ends_as crashes_as still_runs is_clean not_reproduced
reproduce original w e =
    let e' = attempt_start false w.starts_again e in
    let t = w.target_then.output.termination_type in
    if not w.starts_again
    then (
      ends_as err
          (codes "Either target or feeder coould not be started to reproduce the exception!")
          new_output,
      e',
    )
    else if is_clean t && not (still_runs w.target_then)
    then (
      crashes_as other (codes "The request reproducibly causes the target to terminate!")
          (codes "TARGET_TERMINATED") new_output,
      reset e',
    )
    else if not_reproduced t
    then (
      crashes_as original (codes "The found exception could not be reproduced!")
          (codes "NOT_REPRODUCIBLE") new_output,
      reset e',
    )
    else (w.target_then.output, reset e')

-- The target runs on: what the feeder reports is the result.
unfoldable pub report_feeder : Termination → ExecutionOutput → Multi → Executed
unfolding reset
report_feeder clean o e = (o, record e { iteration_num_mod2 = (e.iteration_num_mod2 + 1) % 2 })
report_feeder timeout o e = (o, reset e)
report_feeder other o e = (o, reset e)
report_feeder access_violation o e = (o, reset e)
report_feeder err o e = (o, reset e)

unfoldable pub after_run : Termination → World → ExecutionOutput → Multi → Executed
unfolding reproduce report_feeder still_runs reset
after_run clean w o e =
    if still_runs w.target then report_feeder o.termination_type o e else reproduce clean w e
after_run other w o e = reproduce other w e
after_run access_violation w o e = reproduce access_violation w e
after_run timeout w o e = (w.target.output, reset e)
after_run err w o e = (w.target.output, reset e)

unfoldable pub run_started : World → Multi → Executed
unfolding run_single_testcase after_run
run_started w e =
    let (okay, o) = run_single_testcase true w.run new_output in
    after_run w.target.output.termination_type w o (record e { target_and_feeder_okay = okay })

unfoldable pub run_if_started : World → Multi → Executed
unfolding run_started ends_as
run_if_started w e =
    if e.target_and_feeder_okay
    then run_started w e
    else (ends_as err (codes "Either target or feeder could not be started!") new_output, e)

unfoldable pub count_run : Multi → Multi
unfolding restart_due count_execution
count_run e = record e {
  target_and_feeder_okay =
      if restart_due e.force_restart_after e.executions_since_last_restart
      then false
      else e.target_and_feeder_okay;
  executions_since_last_restart =
      count_execution e.force_restart_after e.executions_since_last_restart;
}

unfoldable pub start_if_needed : World → Multi → Multi
unfolding attempt_start
start_if_needed w e = if e.target_and_feeder_okay then e else attempt_start true w.starts e

unfoldable pub execute : World → Multi → Executed
unfolding run_if_started start_if_needed count_run
execute w e = run_if_started w (start_if_needed w (count_run e))
