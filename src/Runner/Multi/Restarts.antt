-- ===== src/Runner/Multi/Restarts.antt =====
-- How many testcases run between two forced restarts.
use fluffi.Base.{
  ℕ, ◌+◌, ◌%◌, ◌<◌, ◌≤◌, ◌≡◌, refl, true, false, List, [], ◌∷◌, All, length, arith, pos, subst, sym,
}
use fluffi.Runner.Main.{clean}
use fluffi.Runner.Execution.{new_output, still_runs, restart_due, count_execution}
use fluffi.Runner.Multi.{
  Multi, run_single_testcase, attempt_start, World, report_feeder, after_run, run_started,
  run_if_started, count_run, start_if_needed, execute,
}

-- Nothing goes wrong: the target starts, the run is clean, and the target runs on.
abbrev pub IsQuiet : World → Type 0
IsQuiet w =
    (w.starts ≡ true)
    × ((run_single_testcase true w.run new_output).0 ≡ true)
    × ((run_single_testcase true w.run new_output).1.termination_type ≡ clean)
    × (w.target.output.termination_type ≡ clean)
    × (still_runs w.target ≡ true)

quiet_run :
    (w : World) (e : Multi)
    → IsQuiet w
    → e.target_and_feeder_okay ≡ true
    → (run_if_started w e).1 ≡ record e {
      target_and_feeder_okay = true;
      iteration_num_mod2 = (e.iteration_num_mod2 + 1) % 2;
    }
unfolding run_if_started run_started after_run report_feeder
quiet_run w e q okay = rw (okay, q.1, q.3, q.4, q.2) refl

-- The parts of the state that decide about restarts.
abbrev pub IsAt : ℕ → ℕ → Multi → Type 0
IsAt max n e =
    (e.force_restart_after ≡ pos max)
    × (e.executions_since_last_restart ≡ n)
    × (e.target_and_feeder_okay ≡ true)

IsAt-run :
    (w : World) (e : Multi) (max n : ℕ)
    → IsQuiet w
    → IsAt max n e
    → IsAt max n (run_if_started w e).1
IsAt-run w e max n q (f, c, okay) = subst (IsAt max n) (sym (quiet_run w e q okay)) (f, c, refl)

module _ (w : World) (max : ℕ) (quiet : IsQuiet w) (positive : 0 < max) where
  start-IsAt :
      (e : Multi)
      → e.force_restart_after ≡ pos max
      → e.target_and_feeder_okay ≡ false
      → IsAt max 0 (start_if_needed w e)
  unfolding start_if_needed attempt_start
  start-IsAt e f off = ground (arith, f, off, quiet.0)

  count_on :
      (e : Multi) (n : ℕ)
      → n ≤ max
      → IsAt max n e
      → IsAt max (n + 1) (start_if_needed w (count_run e))
  unfolding start_if_needed count_run restart_due count_execution
  count_on e n few (f, c, okay) = ground (arith, f, c, okay)

  count_restarts :
      (e : Multi) (n : ℕ) → max < n → IsAt max n e → IsAt max 0 (start_if_needed w (count_run e))
  unfolding start_if_needed count_run restart_due count_execution attempt_start
  count_restarts e n many (f, c, okay) = ground (arith, f, c, okay, quiet.0)

unfoldable pub execute_all : List World → Multi → Multi
execute_all [] e = e
execute_all (w ∷ ws) e = execute_all ws (execute w e).1

module _ (max : ℕ) (positive : 0 < max) where
  first-IsAt :
      (w : World) (e : Multi)
      → IsQuiet w
      → e.force_restart_after ≡ pos max
      → e.target_and_feeder_okay ≡ false
      → IsAt max 0 (execute w e).1
  unfolding execute count_run
  first-IsAt w e q f off =
      IsAt-run w (start_if_needed w (count_run e)) max 0 q
        (start-IsAt w max q positive (count_run e) f (ground (arith, off)))

  next-IsAt :
      (w : World) (e : Multi) (n : ℕ)
      → IsQuiet w
      → n ≤ max
      → IsAt max n e
      → IsAt max (n + 1) (execute w e).1
  unfolding execute
  next-IsAt w e n q few at = IsAt-run w _ max (n + 1) q (count_on w max q positive e n few at)

  last-IsAt :
      (w : World) (e : Multi) (n : ℕ)
      → IsQuiet w
      → max < n
      → IsAt max n e
      → IsAt max 0 (execute w e).1
  unfolding execute
  last-IsAt w e n q many at = IsAt-run w _ max 0 q (count_restarts w max q positive e n many at)

  pub execute_all-IsAt :
      (ws : List World) (e : Multi) (n : ℕ)
      → All IsQuiet ws
      → n + length ws ≤ max + 1
      → IsAt max n e
      → IsAt max (n + length ws) (execute_all ws e)
  unfolding execute_all
  execute_all-IsAt [] e n q few at = subst (λ k. IsAt max k e) (omega arith) at
  execute_all-IsAt (w ∷ ws) e n q few at =
      subst (λ k. IsAt max k (execute_all ws (execute w e).1)) (omega arith)
        (execute_all-IsAt ws (execute w e).1 (n + 1) q.1 (omega arith)
          (next-IsAt w e n q.0 (omega arith) at))

  -- With a maximum of `max`, which is not zero, and runs in which nothing goes wrong, the target that a
  -- testcase was the first for serves max + 1 further ones, and only the next one has it restarted.
  pub restarts_after_two_more :
      (first last : World) (ws : List World) (e : Multi)
      → e.force_restart_after ≡ pos max
      → e.target_and_feeder_okay ≡ false
      → IsQuiet first
      → IsQuiet last
      → All IsQuiet ws
      → length ws ≡ max + 1
      → IsAt max (max + 1) (execute_all ws (execute first e).1)
        × IsAt max 0 (execute last (execute_all ws (execute first e).1)).1
  restarts_after_two_more first last ws e f off q r qs count =
      let at : IsAt max (max + 1) (execute_all ws (execute first e).1) =
        subst (λ k. IsAt max k (execute_all ws (execute first e).1)) (omega (arith, count))
          (execute_all-IsAt ws (execute first e).1 0 qs (omega (arith, count))
            (first-IsAt first e q f off)) in
      (at, last-IsAt last (execute_all ws (execute first e).1) (max + 1) r (omega arith) at)
