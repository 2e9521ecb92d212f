-- ===== src/LocalManager/Evaluation/Completed.antt =====
-- That the number of no completed testcase is lost between the set in memory and the database.
use fluffi.Base.{
  ℕ, ◌≡◌, refl, Bool, true, false, ◌||◌, Bool-cases, inl, inr, List, [], ◌∷◌, ltb, ◌==◌, ◌-◌,
  length, Text, text_eq_iff, subst, arith,
}
use fluffi.Testcase.{TestcaseId, id_eq, generate_testcase_path_and_filename}
use fluffi.Evaluator.Blocks.{block_instance}
use fluffi.Transfer.Storing.{Outcome, lacks_fuel, exited, returned}
use fluffi.LocalManager.Database.{
  insert_completed, Log, Database, some_guid_too_long, execute, add_entries_to_completed_testcases,
}
use fluffi.LocalManager.Evaluation.{
  Verdict, discard, keep, PutTestEvaluationRequest, Handler, id_among, insert_id, Situation,
  Response, responded, out_of_fuel, process_exit, after_flush, mark_testcase_as_completed,
  respond_with, keep_stored, evaluate, after_rating, after_completion, handle_put_test_evaluation,
}
use fluffi.LocalManager.Evaluation.Logs.{rating-Keeps, testcase-Keeps, Keeps, written}

unfoldable pub recorded : TestcaseId → Handler → Bool
unfolding written
recorded id h = id_among id h.completed_not_yet_pushed || written id h.log

-- Equal numbers are the same member of a set.
same_among :
    (id new : TestcaseId) (ids : List TestcaseId)
    → id_among new ids ≡ true
    → id_eq new id ≡ true
    → id_among id ids ≡ true
unfolding id_among id_eq
same_among id new [] h e = h
same_among id new (x ∷ xs) h e = ground (
  arith,
  text_eq_iff x.service_descriptor.guid new.service_descriptor.guid,
  text_eq_iff new.service_descriptor.guid id.service_descriptor.guid,
  text_eq_iff x.service_descriptor.guid id.service_descriptor.guid,
  same_among id new xs,
)

module _ (db : Database) (id : TestcaseId) where
  -- A response whose handler holds what another held.
  abbrev Retains : Handler → Response → Type 0
  Retains h out_of_fuel = Unit {0}
  Retains h process_exit = Unit {0}
  Retains h (responded success h') = recorded id h ≡ true → recorded id h' ≡ true

  recorded_log :
      (h h' : Handler)
      → h'.completed_not_yet_pushed ≡ h.completed_not_yet_pushed
      → Keeps id h.log h'.log
      → recorded id h ≡ true
      → recorded id h' ≡ true
  unfolding recorded
  recorded_log h h' same keeps r = elim (Bool-cases (id_among id h.completed_not_yet_pushed)) [
    | inl e ↦ ground (arith, same)
    | inr e ↦ ground (arith, keeps (ground arith))
  ]

  Retains-after :
      (h k : Handler) (r : Response)
      → (recorded id h ≡ true → recorded id k ≡ true)
      → Retains k r
      → Retains h r
  Retains-after h k out_of_fuel first rest = tt
  Retains-after h k process_exit first rest = tt
  Retains-after h k (responded success h') first rest = λ x. rest (first x)

  stored-Retains :
      (force : ℕ) (dir : Text) (w : Situation) (q : PutTestEvaluationRequest) (h : Handler)
      (o : Outcome)
      → Retains h (keep_stored db force dir w q h o)
  unfolding keep_stored respond_with
  stored-Retains force dir w q h lacks_fuel = tt
  stored-Retains force dir w q h exited = tt
  stored-Retains force dir w q h (returned false bytes g files) = recorded_log h _ refl (λ k. k)
  stored-Retains force dir w q h (returned true bytes g files) = recorded_log h _ refl (
      testcase-Keeps db id q.result.exit_type q
        (w.bytes_of files (generate_testcase_path_and_filename q.id dir)) h.log)

  evaluate-Retains :
      (force : ℕ) (dir : Text) (v : Verdict) (w : Situation) (q : PutTestEvaluationRequest)
      (h : Handler)
      → Retains h (evaluate db force dir v w q h)
  unfolding evaluate
  evaluate-Retains force dir discard w q h = λ r. r
  evaluate-Retains force dir keep w q h = stored-Retains force dir w q h _

  rating-Retains :
      (force : ℕ) (dir : Text) (w : Situation) (q : PutTestEvaluationRequest) (h : Handler)
      (r : Bool × Log)
      → Keeps id h.log (r).1
      → Retains h (after_rating db force dir w q h r)
  unfolding after_rating
  rating-Retains force dir w q h (true, log) keeps =
      Retains-after h (record h { log = log })
        (evaluate db force dir q.eval w q (record h { log = log }))
        (recorded_log h (record h { log = log }) refl keeps)
        (evaluate-Retains force dir q.eval w q (record h { log = log }))
  rating-Retains force dir w q h (false, log) keeps =
      recorded_log h (record h { log = log }) refl keeps

  completion-Retains :
      (force : ℕ) (dir : Text) (w : Situation) (q : PutTestEvaluationRequest) (r : Bool × Handler)
      → Retains (r).1 (after_completion db force dir w q r)
  unfolding after_completion
  completion-Retains force dir w q (true, h) =
      rating-Retains force dir w q h _ (rating-Keeps db id q.parent_id q.parent_rating_delta h.log)
  completion-Retains force dir w q (false, h) = λ k. k

  -- A flush that succeeds has written the whole set.
  -- A flush that succeeds has written the whole set.
  nonempty-records :
      (ids : List TestcaseId) (log : Log) (now : ℕ) (h : Handler)
      → h.completed_not_yet_pushed ≡ ids
      → h.log ≡ log
      → (id_among id ids || written id log) ≡ true
      → some_guid_too_long ids ≡ false
      → recorded id (after_flush now h (add_entries_to_completed_testcases db ids log)).1 ≡ true
  unfolding recorded after_flush add_entries_to_completed_testcases execute written id_among
      some_guid_too_long
  nonempty-records [] log now h same same_log r e = r
  nonempty-records (i ∷ ids) log now h same same_log r e =
      let some_there : (length (i ∷ ids) == 0) ≡ false = ground arith in
      elim (Bool-cases (db.executes log (insert_completed (i ∷ ids)))) [
        | inl d ↦ rw (e, some_there, d) r
        | inr d ↦ rw (e, some_there, d, same) r
      ]

  flush-records :
      (ids : List TestcaseId) (log : Log) (now : ℕ) (h : Handler)
      → h.completed_not_yet_pushed ≡ ids
      → h.log ≡ log
      → (id_among id ids || written id log) ≡ true
      → recorded id (after_flush now h (add_entries_to_completed_testcases db ids log)).1 ≡ true
  unfolding recorded after_flush add_entries_to_completed_testcases execute written id_among
  flush-records ids log now h same same_log r = elim (Bool-cases (some_guid_too_long ids)) [
    | inl e ↦ rw (e, same) r
    | inr e ↦ nonempty-records ids log now h same same_log r e
  ]

  kept_in_memory :
      (h : Handler)
      → (id_among id h.completed_not_yet_pushed || written id h.log) ≡ true
      → recorded id h ≡ true
  unfolding recorded
  kept_in_memory h r = r

  known_among :
      (new : TestcaseId) (h : Handler)
      → (id_eq new id || recorded id h) ≡ true
      → (id_among id (insert_id new h.completed_not_yet_pushed) || written id h.log) ≡ true
  unfolding recorded insert_id id_among
  known_among new h r = elim (Bool-cases (id_among new h.completed_not_yet_pushed)) [
    | inl e ↦ rw e (ground (arith, same_among id new h.completed_not_yet_pushed e))
    | inr e ↦ rw e (ground arith)
  ]

  mark-records :
      (force : ℕ) (dir : Text) (now : ℕ) (new : TestcaseId) (h : Handler)
      → (id_among id (insert_id new h.completed_not_yet_pushed) || written id h.log) ≡ true
      → recorded id (mark_testcase_as_completed db force dir now new h).1 ≡ true
  unfolding mark_testcase_as_completed
  mark-records force dir now new h r =
      let ids : List TestcaseId = insert_id new h.completed_not_yet_pushed in
      let h' : Handler = record h { completed_not_yet_pushed = ids } in
      elim (Bool-cases (ltb 100 (length ids) || ltb force (now - h.time_of_last_flush))) [
        | inl e ↦ rw e (flush-records ids h.log now h' refl refl r)
        | inr e ↦ rw e (kept_in_memory h' r)
      ]

  -- Every verdict's testcase is afterwards in the set or was written, whatever becomes of the request,
  -- and so is every testcase that was.
  pub handle-records :
      (force : ℕ) (dir : Text) (w : Situation) (q : PutTestEvaluationRequest) (h h' : Handler)
      (success : Bool)
      → handle_put_test_evaluation db force dir w q h ≡ responded success h'
      → ((id_eq q.id id || recorded id h) ≡ true)
      → recorded id h' ≡ true
  unfolding handle_put_test_evaluation
  handle-records force dir w q h h' success e known =
      let r : Retains (mark_testcase_as_completed db force dir w.now q.id h).1
          (responded success h') =
        subst (Retains (mark_testcase_as_completed db force dir w.now q.id h).1) e (
          completion-Retains force dir w q
            (mark_testcase_as_completed db force dir w.now q.id h)) in
      r (mark-records force dir w.now q.id h (known_among q.id h known))
