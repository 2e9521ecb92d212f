-- ===== src/Runner/Execution.antt =====
-- What the executors of core/TestcaseRunner that keep a target running have in common: the result of
-- a run, and what the process around the target reports.
use fluffi.Base.{
  ◌≡◌, refl, ℕ, ◌+◌, Bool, true, false, ◌&&◌, [], if◌then◌else◌, Text, codes, ℤ, negsuc, pos, ltb,
}
use fluffi.Evaluator.Blocks.{int_eq}
use fluffi.Runner.Main.{Termination, clean, other, access_violation, timeout, err, ExecutionOutput}

-- A new DebugExecutionOutput.
abbrev pub new_output : ExecutionOutput
new_output = record {
  termination_type = err;
  termination_description = codes "NOT SET";
  first_crash = [];
  last_crash = [];
  covered_basic_blocks = [];
  has_full_coverage = true;
}

unfoldable pub ends_as : Termination → Text → ExecutionOutput → ExecutionOutput
ends_as t text o = record o { termination_type = t; termination_description = text }

unfoldable pub crashes_as : Termination → Text → Text → ExecutionOutput → ExecutionOutput
crashes_as t text place o = record o {
  termination_type = t;
  termination_description = text;
  first_crash = place;
  last_crash = place;
}

-- The target after a run: the debugger's output, and the exit status, which is -1 while it runs.
pub record TargetState : Type 0 where
  pub output : ExecutionOutput
  pub exit_status : ℤ

unfoldable pub still_runs : TargetState → Bool
still_runs t = int_eq t.exit_status (negsuc 0)

unfoldable pub is_clean : Termination → Bool
is_clean clean = true
is_clean other = false
is_clean access_violation = false
is_clean timeout = false
is_clean err = false

-- The debugger saw no crash in the second run: the outputs of these kinds say nothing of one.
unfoldable pub not_reproduced : Termination → Bool
not_reproduced clean = true
not_reproduced timeout = true
not_reproduced err = true
not_reproduced other = false
not_reproduced access_violation = false

-- What the counter of executions says before a run: with no positive maximum it is not touched.
unfoldable pub restart_due : ℤ → ℕ → Bool
restart_due (pos max) executions = ltb 0 max && ltb max executions
restart_due (negsuc n) executions = false

unfoldable pub count_execution : ℤ → ℕ → ℕ
count_execution (pos max) executions = if ltb 0 max then executions + 1 else executions
count_execution (negsuc n) executions = executions

-- A clean run shows no crash.
pub is_clean-not_reproduced : (t : Termination) → is_clean t ≡ true → not_reproduced t ≡ true
unfolding is_clean not_reproduced
is_clean-not_reproduced clean h = refl
is_clean-not_reproduced other h = absurd (cc)
is_clean-not_reproduced access_violation h = absurd (cc)
is_clean-not_reproduced timeout h = refl
is_clean-not_reproduced err h = refl
