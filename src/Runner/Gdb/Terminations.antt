-- ===== src/Runner/Gdb/Terminations.antt =====
-- When the result says that a target under GDB ended cleanly.
use fluffi.Base.{Bool, ◌&&◌, not, if◌then◌else◌}
use fluffi.Runner.Main.{ExecutionOutput}
use fluffi.Runner.Execution.{new_output, still_runs, is_clean, not_reproduced, restart_due}
use fluffi.Runner.Gdb.{Gdb, World, full, partial}

-- The target of the last execution serves this one too.
abbrev pub goes_on : Gdb → Bool
goes_on e =
    e.target_and_feeder_okay
    && not (restart_due e.force_restart_after e.executions_since_last_restart)

-- What the first run says.
abbrev pub first_output : World → Bool → ExecutionOutput
first_output w whole =
    (w.run (if whole then full else partial) (record new_output { has_full_coverage = whole })).1

-- The second run, which is to show what the first one met, showed no crash.
abbrev pub second_quiet : World → Bool
second_quiet w = w.starts_again && not_reproduced w.target_then.output.termination_type

-- The first run shows no crash, and the target runs on and the feeder reports a clean end, or it has
-- ended and the second run shows no crash either. The Boolean is full coverage.
abbrev pub passes_as_clean : World → Bool → Bool
passes_as_clean w whole =
    is_clean w.target.output.termination_type
    && (if still_runs w.target
        then is_clean (first_output w whole).termination_type
        else second_quiet w)
