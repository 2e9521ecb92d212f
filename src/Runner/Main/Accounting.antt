-- ===== src/Runner/Main/Accounting.antt =====
-- What becomes of a testcase that a runner fetched.
use fluffi.Base.{
  ℕ, ◌+◌, ◌≡◌, ◌≢◌, inl, inr, refl, not, ◌||◌, Bool, true, false, Bool-cases, Option, none, some,
  if◌then◌else◌, Text, text_instance, text_eq_self, contains-insert_self,
}
use fluffi.Testcase.{ServiceDescriptor, TestcaseId, generate_testcase_path_and_filename}
use fluffi.Collector.{Files, mark_file_for_delete, is_file_marked_for_deletion}
use fluffi.Transfer.Chunks.{Bytes, load_testcase_chunk}
use fluffi.Runner.Main.{
  err, ExecutionOutput, internal_error, result_of, fuzz_test_case, is_internal_error,
  GetTestcaseResponse, PutTestResultRequest, Runner, World, no_partner, no_testcase, internal,
  push_failed, pushed, TurnResult, out_of_fuel, ends_process, turned, mark_testcase, build_push,
  accepted, warn, push_testcase_with_results, process_testcase,
}

mark_testcase-marks :
    (id : TestcaseId) (dir : Text) (r : Runner)
    → is_file_marked_for_deletion
        (generate_testcase_path_and_filename id dir)
        (mark_testcase id dir r).collector
      ≡ true
unfolding mark_testcase is_file_marked_for_deletion mark_file_for_delete
mark_testcase-marks id dir r =
    contains-insert_self (generate_testcase_path_and_filename id dir)
      r.collector.set_of_files_to_delete

-- A run that failed is an internal error of the runner.
result_of-internal : (o : ExecutionOutput) → is_internal_error (result_of err o) ≡ true
unfolding is_internal_error result_of
result_of-internal o = text_eq_self internal_error

not_internal :
    (o : ExecutionOutput)
    → is_internal_error (result_of o.termination_type o) ≡ false
    → o.termination_type ≢ err
unfolding result_of
not_internal o h e =
    let x : is_internal_error (result_of err o) ≡ false = rw e at h in cc (result_of-internal o)

accepted-some : (a : Option Bool) → accepted a ≡ true → a ≡ some true
unfolding accepted
accepted-some none h = cc
accepted-some (some b) h = cc

accepted-not : (a : Option Bool) → accepted a ≡ false → a ≢ some true
unfolding accepted
accepted-not none h e = cc
accepted-not (some b) h e = cc

module _ (chunk_size : ℕ) (me : ServiceDescriptor) (dir : Text) (w : World) where
  abbrev name : GetTestcaseResponse → Text
  name t = generate_testcase_path_and_filename t.id dir

  -- After a testcase that was stored: an internal error, or a failed or a successful push.
  abbrev pub Accounted : Text → GetTestcaseResponse → Runner → TurnResult → Type 0
  Accounted evaluator t r out_of_fuel = ⊥
  Accounted evaluator t r ends_process = ⊥
  Accounted evaluator t r (turned no_partner a b r' files) = ⊥
  Accounted evaluator t r (turned no_testcase a b r' files) = ⊥
  Accounted evaluator t r (turned internal a b r' files) =
      (is_internal_error (fuzz_test_case w.execute t.id t.force_full_coverage) ≡ true)
      × (is_file_marked_for_deletion (name t) r'.collector ≡ true)
      × (r'.number_of_processed_testcases ≡ r.number_of_processed_testcases + 1)
  Accounted evaluator t r (turned (push_failed e push) a b r' files) =
      (e ≡ evaluator)
      × (push.id ≡ t.id)
      × (w.evaluator_answer evaluator push ≢ some true)
      × (is_file_marked_for_deletion (name t) r'.collector ≡ true)
      × (r'.number_of_processed_testcases ≡ r.number_of_processed_testcases + 1)
  Accounted evaluator t r (turned (pushed e push) a b r' files) =
      (e ≡ evaluator)
      × (push.id ≡ t.id)
      × (push.parent_id ≡ t.parent_id)
      × (push.result ≡ fuzz_test_case w.execute t.id t.force_full_coverage)
      × ((w.execute t.id t.force_full_coverage).termination_type ≢ err)
      × (w.evaluator_answer evaluator push ≡ some true)
      × ((not push.is_last_chunk || is_file_marked_for_deletion (name t) r'.collector) ≡ true)
      × (r'.number_of_processed_testcases ≡ r.number_of_processed_testcases + 1)

  push-Accounted :
      (evaluator : Text) (t : GetTestcaseResponse) (r r2 : Runner) (files : Files)
      (push : PutTestResultRequest)
      → let result = fuzz_test_case w.execute t.id t.force_full_coverage in
        push.id ≡ t.id
        → push.parent_id ≡ t.parent_id
        → push.result ≡ result
        → (w.execute t.id t.force_full_coverage).termination_type ≢ err
        → ((not push.is_last_chunk || is_file_marked_for_deletion (name t) r2.collector) ≡ true)
        → r2.number_of_processed_testcases ≡ r.number_of_processed_testcases + 1
        → Accounted evaluator t r
            (push_testcase_with_results w dir result t.id evaluator files (push, r2))
  unfolding push_testcase_with_results accepted warn mark_testcase
  push-Accounted evaluator t r r2 files push i p q n m c =
      elim (Bool-cases (accepted (w.evaluator_answer evaluator push))) [
        | inl e ↦ rw e (refl, i, p, q, n, accepted-some (w.evaluator_answer evaluator push) e, m, c)
        | inr e ↦ rw e (
          refl,
          i,
          λ a. accepted-not (w.evaluator_answer evaluator push) e a,
          mark_testcase-marks t.id dir r2,
          c,
        )
      ]

  pushed-Accounted :
      (evaluator : Text) (t : GetTestcaseResponse) (r : Runner) (files : Files)
      → let result = fuzz_test_case w.execute t.id t.force_full_coverage in
        (w.execute t.id t.force_full_coverage).termination_type ≢ err
        → Accounted evaluator t r (
            push_testcase_with_results w dir result t.id evaluator files (
              build_push chunk_size me dir w result t.id t.parent_id
                (record r { number_of_processed_testcases = r.number_of_processed_testcases + 1 })
                files))
  unfolding build_push mark_testcase
  pushed-Accounted evaluator t r files h =
      let r' : Runner = record r {
        number_of_processed_testcases = r.number_of_processed_testcases + 1;
      } in
      let x : Bytes × Bool =
        load_testcase_chunk chunk_size w.last_chunk_before 0 (w.file_then files (name t)) in
      elim (Bool-cases (x).1) [
        | inl e ↦
            push-Accounted evaluator t r (if (x).1 then mark_testcase t.id dir r' else r') files _
              refl refl refl h (rw e (mark_testcase-marks t.id dir r')) (rw e refl)
        | inr e ↦
            push-Accounted evaluator t r (if (x).1 then mark_testcase t.id dir r' else r') files _
              refl refl refl h (rw e refl) (rw e refl)
      ]

  pub process-Accounted :
      (evaluator : Text) (t : GetTestcaseResponse) (r : Runner) (files : Files)
      → Accounted evaluator t r (process_testcase chunk_size me dir w evaluator t r files)
  unfolding process_testcase mark_testcase fuzz_test_case
  process-Accounted evaluator t r files =
      elim (Bool-cases (is_internal_error (fuzz_test_case w.execute t.id t.force_full_coverage))) [
        | inl e ↦ rw e (e, mark_testcase-marks t.id dir r, refl)
        | inr e ↦ rw e (
            pushed-Accounted evaluator t r files
              (not_internal (w.execute t.id t.force_full_coverage) e))
      ]
