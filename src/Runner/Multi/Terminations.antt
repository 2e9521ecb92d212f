-- ===== src/Runner/Multi/Terminations.antt =====
-- When the result says that a target under DynamoRIO ended cleanly.
use fluffi.Base.{Bool, true, ◌&&◌, not, if◌then◌else◌}
use fluffi.Runner.Execution.{new_output, still_runs, is_clean, not_reproduced, restart_due}
use fluffi.Runner.Multi.{Multi, run_single_testcase, World}

-- The target of the last execution serves this one too.
abbrev pub goes_on : Multi → Bool
goes_on e =
    e.target_and_feeder_okay
    && not (restart_due e.force_restart_after e.executions_since_last_restart)

-- The second run, without instrumentation, showed no crash, and the target runs on if it was clean.
abbrev pub second_quiet : World → Bool
second_quiet w =
    w.starts_again
    && (not (is_clean w.target_then.output.termination_type && not (still_runs w.target_then))
        && not_reproduced w.target_then.output.termination_type)

-- The first run shows no crash, and the target runs on and its run ended cleanly, or it has ended and
-- the second run shows no crash.
abbrev pub passes_as_clean : World → Bool
passes_as_clean w =
    is_clean w.target.output.termination_type
    && (if still_runs w.target
        then is_clean (run_single_testcase true w.run new_output).1.termination_type
        else second_quiet w)
