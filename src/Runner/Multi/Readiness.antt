-- ===== src/Runner/Multi/Readiness.antt =====
-- When the target may be used for the next testcase.
use fluffi.Base.{
  ◌≡◌, ◌⊎◌, inl, inr, refl, Bool, true, false, ◌&&◌, ◌||◌, not, Bool-cases, if◌then◌else◌, ◌==◌,
  Text, arith,
}
use fluffi.Runner.Main.{Termination, clean, other, access_violation, timeout, err, ExecutionOutput}
use fluffi.Runner.Execution.{new_output, ends_as, crashes_as, still_runs, is_clean, not_reproduced}
use fluffi.Runner.Multi.{
  Multi, RunWorld, RunEnd, unless_fails, finish, parse_coverage, dump_coverage, wait_for_feeder,
  send_filename, run_single_testcase, attempt_start, World, Executed, reset, reproduce,
  report_feeder, after_run, run_started, run_if_started, count_run, start_if_needed, execute,
}

-- A run that says okay has its coverage, or the feeder's claim of a crash.
abbrev pub Ends : RunWorld → RunEnd → Type 0
Ends w (true, o) =
    ((o.termination_type ≡ clean) × (o.covered_basic_blocks ≡ w.covered))
    ⊎ (o.termination_type ≡ other)
Ends w (false, o) = (o.termination_type ≡ err) ⊎ (o.termination_type ≡ timeout)

unless_fails-Ends :
    (w : RunWorld) (ok : Bool) (text : Text) (o : ExecutionOutput) (next : RunEnd)
    → Ends w next
    → Ends w (unless_fails ok text o next)
unfolding unless_fails ends_as
unless_fails-Ends w true text o next h = h
unless_fails-Ends w false text o next h = inl refl

parse-Ends : (w : RunWorld) → Ends w (parse_coverage true w new_output)
unfolding parse_coverage finish ends_as
parse-Ends w =
    unless_fails-Ends w w.log_found _ new_output _
      (unless_fails-Ends w w.log_has_bytes _ new_output _ (inl (refl, refl)))

dump-Ends : (w : RunWorld) → Ends w (dump_coverage true w new_output)
unfolding dump_coverage
dump-Ends w =
    unless_fails-Ends w w.nudge_dump _ new_output _
      (unless_fails-Ends w (w.dump_answer == 68) _ new_output _ (parse-Ends w))

feeder-Ends : (w : RunWorld) → Ends w (wait_for_feeder true w new_output)
unfolding wait_for_feeder ends_as crashes_as
feeder-Ends w = elim (Bool-cases (w.feeder_answer == 0x3)) [
  | inl a ↦ rw a (dump-Ends w)
  | inr a ↦ elim (Bool-cases (w.feeder_answer == 0x104)) [
    | inl b ↦ rw (a, b) (inl refl)
    | inr b ↦ elim (Bool-cases (w.feeder_answer == 0x101)) [
      | inl c ↦ rw (a, b, c) (inr refl)
      | inr c ↦ elim (Bool-cases (w.feeder_answer == 0x10)) [
        | inl d ↦ rw (a, b, c, d) (inr refl)
        | inr d ↦ rw (a, b, c, d) (inl refl)
      ]
    ]
  ]
]

run-Ends : (w : RunWorld) → Ends w (run_single_testcase true w new_output)
unfolding run_single_testcase send_filename
run-Ends w = unless_fails-Ends w w.next_log_is_gone _ new_output _ (
    unless_fails-Ends w w.nudge_reset _ new_output _ (
      unless_fails-Ends w (w.reset_answer == 82) _ new_output _
        (unless_fails-Ends w w.filename_sent _ new_output _ (feeder-Ends w))))

-- A target that is used again was started with instrumentation.
abbrev pub IsReady : Multi → Type 0
IsReady e = (not e.target_and_feeder_okay || e.instrumented) ≡ true

-- The target is used again only where the run was clean, its blocks are the result, and it runs on.
abbrev pub Reusable : World → Executed → Type 0
Reusable w (o, e) =
    IsReady e
    × ((e.target_and_feeder_okay ≡ false)
        ⊎ ((o.termination_type ≡ clean)
            × (o.covered_basic_blocks ≡ w.run.covered)
            × (still_runs w.target ≡ true)))

reset-Reusable : (w : World) (o : ExecutionOutput) (e : Multi) → Reusable w (o, reset e)
unfolding reset
reset-Reusable w o e = (refl, inl refl)

reproduce-Reusable : (t : Termination) (w : World) (e : Multi) → Reusable w (reproduce t w e)
unfolding reproduce attempt_start reset
reproduce-Reusable t w e = elim (Bool-cases w.starts_again) [
  | inr a ↦ rw a (refl, inl refl)
  | inl a ↦
      elim (Bool-cases
        (is_clean w.target_then.output.termination_type && not (still_runs w.target_then))) [
          | inl b ↦ rw (a, b) (refl, inl refl)
          | inr b ↦ elim (Bool-cases (not_reproduced w.target_then.output.termination_type)) [
            | inl c ↦ rw (a, b, c) (refl, inl refl)
            | inr c ↦ rw (a, b, c) (refl, inl refl)
          ]
        ]
]

feeder-Reusable :
    (w : World) (o : ExecutionOutput) (e : Multi) (t : Termination)
    → o.termination_type ≡ t
    → Ends w.run (e.target_and_feeder_okay, o)
    → IsReady e
    → still_runs w.target ≡ true
    → Reusable w (report_feeder t o e)
unfolding report_feeder
feeder-Reusable w o e clean same h r s = (r, reported (e.target_and_feeder_okay) refl h)
  where
    reported :
        (okay : Bool)
        → e.target_and_feeder_okay ≡ okay
        → Ends w.run (okay, o)
        → (e.target_and_feeder_okay ≡ false)
          ⊎ ((o.termination_type ≡ clean)
              × (o.covered_basic_blocks ≡ w.run.covered)
              × (still_runs w.target ≡ true))
    reported false x k = inl x
    reported true x (inl k) = inr (k.0, k.1, s)
    reported true x (inr k) = absurd (cc)
feeder-Reusable w o e other same h r s = reset-Reusable w o e
feeder-Reusable w o e access_violation same h r s = reset-Reusable w o e
feeder-Reusable w o e timeout same h r s = reset-Reusable w o e
feeder-Reusable w o e err same h r s = reset-Reusable w o e

split :
    {A : Type 0} (P : A → Type 0) (b : Bool) (x y : A)
    → (b ≡ true → P x)
    → (b ≡ false → P y)
    → P (if b then x else y)
split P true x y f g = f refl
split P false x y f g = g refl

after-Reusable :
    (w : World) (o : ExecutionOutput) (e : Multi) (t : Termination)
    → Ends w.run (e.target_and_feeder_okay, o)
    → IsReady e
    → Reusable w (after_run t w o e)
unfolding after_run
after-Reusable w o e clean h r =
    split (λ (x : Executed). Reusable w x) (still_runs w.target)
      (report_feeder o.termination_type o e) (reproduce clean w e)
      (feeder-Reusable w o e o.termination_type refl h r) (λ s. reproduce-Reusable clean w e)
after-Reusable w o e other h r = reproduce-Reusable other w e
after-Reusable w o e access_violation h r = reproduce-Reusable access_violation w e
after-Reusable w o e timeout h r = reset-Reusable w w.target.output e
after-Reusable w o e err h r = reset-Reusable w w.target.output e

started-Reusable : (w : World) (e : Multi) → e.instrumented ≡ true → Reusable w (run_started w e)
unfolding run_started
started-Reusable w e i =
    let r : RunEnd = run_single_testcase true w.run new_output in
    after-Reusable w (r).1 (record e { target_and_feeder_okay = (r).0 })
      w.target.output.termination_type (run-Ends w.run) (ground (arith, i))

begun-Reusable : (w : World) (e : Multi) → IsReady e → Reusable w (run_if_started w e)
unfolding run_if_started
begun-Reusable w e h =
    split (λ (x : Executed). Reusable w x) e.target_and_feeder_okay (run_started w e) _
      (λ a. started-Reusable w e (ground (arith, a))) (λ a. (h, inl a))

start_if_needed-IsReady : (w : World) (e : Multi) → IsReady e → IsReady (start_if_needed w e)
unfolding start_if_needed attempt_start
start_if_needed-IsReady w e h = ground arith

count_run-IsReady : (e : Multi) → IsReady e → IsReady (count_run e)
unfolding count_run
count_run-IsReady e h = ground arith

-- After every execution the target is only used again where it was started with instrumentation, the
-- run was clean, its blocks are the result's, and the target runs on.
pub execute-Reusable : (w : World) (e : Multi) → IsReady e → Reusable w (execute w e)
unfolding execute
execute-Reusable w e h =
    begun-Reusable w (start_if_needed w (count_run e))
      (start_if_needed-IsReady w (count_run e) (count_run-IsReady e h))
