-- ===== src/Runner/Gdb.antt =====
-- core/TestcaseRunner/TestExecutorGDB::execute: as with DynamoRIO, a target that runs on and a second
-- run where it crashed. What runSingleTestcase makes of a run is an argument.
pub mod Terminations
use fluffi.Base.{ℕ, Bool, true, false, ◌&&◌, ◌||◌, not, List, [], if◌then◌else◌, Text, codes, ℤ}
use fluffi.Runner.Main.{Termination, clean, other, access_violation, timeout, err, ExecutionOutput}
use fluffi.Runner.Execution.{
  new_output, ends_as, crashes_as, TargetState, still_runs, is_clean, not_reproduced, restart_due,
  count_execution,
}

pub data CoverageMode : Type 0 where
  full partial no_coverage : CoverageMode

pub record Gdb : Type 0 where
  pub target_and_feeder_okay : Bool
  pub executions_since_last_restart : ℕ
  pub force_restart_after : ℤ

-- The two starts, the two runs from an output that was prepared, and the target after each.
pub record World : Type 0 where
  pub starts : Bool
  pub run : CoverageMode → ExecutionOutput → Bool × ExecutionOutput
  pub target : TargetState
  pub starts_again : Bool
  pub target_then : TargetState

abbrev pub Executed : Type 0
Executed = ExecutionOutput × Gdb

-- An output without full coverage.
unfoldable pub no_coverage_output : ExecutionOutput
no_coverage_output = record new_output { has_full_coverage = false }

unfoldable pub start : Bool → Gdb → Gdb
start success e = record e { target_and_feeder_okay = success; executions_since_last_restart = 0 }

unfoldable pub reset : Gdb → Gdb
reset e = record e { target_and_feeder_okay = false }

unfoldable pub reproduce : Termination → World → Gdb → Executed
unfolding start reset no_coverage_output ends_as crashes_as still_runs is_clean not_reproduced
reproduce original w e =
    let t = w.target_then.output.termination_type in
    if not w.starts_again
    then (
      ends_as err
          (codes "Either target or feeder coould not be started to reproduce the exception!")
          no_coverage_output,
      start w.starts_again e,
    )
    else if is_clean t && not (still_runs w.target_then)
    then (
      crashes_as original (codes "The request reproducibly causes the target to terminate!")
          (codes "TARGET_TERMINATED") new_output,
      reset (start w.starts_again e),
    )
    else if not_reproduced t
    then (
      crashes_as original (codes "The found exception could not be reproduced!")
          (codes "NOT_REPRODUCIBLE") no_coverage_output,
      reset (start w.starts_again e),
    )
    else (w.target_then.output, reset (start w.starts_again e))

unfoldable pub report_feeder : Termination → ExecutionOutput → Gdb → Executed
unfolding reset
report_feeder clean o e = (o, e)
report_feeder timeout o e = (o, reset e)
report_feeder other o e = (o, reset e)
report_feeder access_violation o e = (o, reset e)
report_feeder err o e = (o, reset e)

unfoldable pub after_run : Termination → World → ExecutionOutput → Gdb → Executed
unfolding reproduce report_feeder still_runs reset
after_run clean w o e =
    if still_runs w.target then report_feeder o.termination_type o e else reproduce clean w e
after_run other w o e = reproduce other w e
after_run access_violation w o e = reproduce access_violation w e
after_run timeout w o e = (w.target.output, reset e)
after_run err w o e = (w.target.output, reset e)

-- The first run behind a start, and a run on demand, cover everything.
unfoldable pub run_started : World → Bool → Gdb → Executed
unfolding after_run
run_started w full_coverage e =
    let (okay, o) =
      w.run (if full_coverage then full else partial)
        (record new_output { has_full_coverage = full_coverage }) in
    after_run w.target.output.termination_type w o (record e { target_and_feeder_okay = okay })

unfoldable pub count_run : Gdb → Gdb
unfolding restart_due count_execution
count_run e = record e {
  target_and_feeder_okay =
      if restart_due e.force_restart_after e.executions_since_last_restart
      then false
      else e.target_and_feeder_okay;
  executions_since_last_restart =
      count_execution e.force_restart_after e.executions_since_last_restart;
}

unfoldable pub start_and_run : World → Bool → Gdb → Executed
unfolding run_started start no_coverage_output ends_as
start_and_run w force_full_coverage e =
    if e.target_and_feeder_okay
    then run_started w force_full_coverage e
    else if w.starts
    then run_started w true (start true e)
    else (
      ends_as err (codes "Either target or feeder could not be started!") no_coverage_output,
      start false e,
    )

unfoldable pub execute : World → Bool → Gdb → Executed
unfolding start_and_run count_run
execute w force_full_coverage e = start_and_run w force_full_coverage (count_run e)
