-- ===== src/Tests/Executors.antt =====
-- Executions in targets that run on, that end by themselves, and that are restarted.
use fluffi.Base.{◌≡◌, refl, true, false, [], ◌∷◌, codes, arith, pos, negsuc}
use fluffi.Testcase.{TestcaseId}
use fluffi.Runner.Main.{clean, ExecutionOutput}
use fluffi.Runner.Execution.{new_output, is_clean, not_reproduced, TargetState, still_runs}
use fluffi.Runner.Multi.{Multi, RunWorld, World, execute, run_single_testcase}
use fluffi.Runner.Multi.Readiness.{Reusable, execute-Reusable}
use fluffi.Runner.Multi.Terminations.{passes_as_clean}
use fluffi.Runner.Multi.Restarts.{IsQuiet, IsAt, execute_all, restarts_after_two_more}
use fluffi.Runner.Gdb
use fluffi.Runner.Gdb.Terminations

abbrev good_run : RunWorld
good_run = record {
  next_log_is_gone = true;
  nudge_reset = true;
  reset_answer = 82;
  filename_sent = true;
  feeder_answer = 3;
  nudge_dump = true;
  dump_answer = 68;
  log_found = true;
  log_has_bytes = true;
  covered = record { module_id = pos 1; rva = 64 } ∷ [];
  details = [];
}

abbrev clean_output : ExecutionOutput
clean_output = record new_output { termination_type = clean }

abbrev running : TargetState
running = record { output = clean_output; exit_status = negsuc 0 }

abbrev ended : TargetState
ended = record { output = clean_output; exit_status = pos 0 }

abbrev quiet : World
quiet = record {
  starts = true;
  run = good_run;
  target = running;
  starts_again = true;
  run_again = good_run;
  target_then = running;
}

abbrev vanishing : World
vanishing = record quiet { target = ended }

abbrev new_multi : Multi
new_multi = record {
  target_and_feeder_okay = false;
  executions_since_last_restart = 0;
  iteration_num_mod2 = 0;
  force_restart_after = pos 1;
  instrumented = false;
}

abbrev started_multi : Multi
started_multi = record new_multi {
  target_and_feeder_okay = true;
  force_restart_after = negsuc 0;
  instrumented = true;
}

quiet_world : IsQuiet quiet
unfolding run_single_testcase still_runs
quiet_world = (refl, refl, refl, refl, refl)

execute-Reusable_example : Reusable quiet (execute quiet new_multi)
execute-Reusable_example = execute-Reusable quiet new_multi refl

restarts_after_two_more_example :
    IsAt 1 2 (execute_all (quiet ∷ quiet ∷ []) (execute quiet new_multi).1)
    × IsAt 1 0 (execute quiet (execute_all (quiet ∷ quiet ∷ []) (execute quiet new_multi).1)).1
restarts_after_two_more_example =
    restarts_after_two_more 1 (omega arith) quiet quiet (quiet ∷ quiet ∷ []) new_multi refl refl
      quiet_world quiet_world (quiet_world, (quiet_world, tt)) refl

abbrev some_id : TestcaseId
some_id = record {
  service_descriptor = record { service_host_and_port = codes "tg:1"; guid = codes "g" };
  local_id = 1;
}

abbrev started_gdb : Gdb.Gdb
started_gdb = record {
  target_and_feeder_okay = true;
  executions_since_last_restart = 0;
  force_restart_after = negsuc 0;
}

abbrev ending : Gdb.World
ending = record {
  starts = true;
  run = λ mode o. (true, o);
  target = ended;
  starts_again = true;
  target_then = ended;
}

-- Both ended by themselves, and the result is clean.
vanishing_run : passes_as_clean vanishing ≡ true
unfolding still_runs is_clean not_reproduced
vanishing_run = refl

ending_gdb_run : Terminations.passes_as_clean ending false ≡ true
unfolding still_runs is_clean not_reproduced
ending_gdb_run = refl
