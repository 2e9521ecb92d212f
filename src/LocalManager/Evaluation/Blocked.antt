-- ===== src/LocalManager/Evaluation/Blocked.antt =====
-- What one identifier that the database refuses does to all later requests.
use fluffi.Base.{
  ℕ, ◌+◌, ◌-◌, ◌<◌, ◌≡◌, refl, true, false, ◌||◌, List, [], ◌∷◌, ltb, length, Text, arith, All,
}
use fluffi.Testcase.{TestcaseId}
use fluffi.LocalManager.Database.{Database, some_guid_too_long, add_entries_to_completed_testcases}
use fluffi.LocalManager.Evaluation.{
  PutTestEvaluationRequest, Handler, insert_id, Situation, responded, after_flush,
  mark_testcase_as_completed, after_completion, handle_put_test_evaluation,
}

insert_id-too_long :
    (id : TestcaseId) (ids : List TestcaseId)
    → some_guid_too_long ids ≡ true
    → some_guid_too_long (insert_id id ids) ≡ true
unfolding some_guid_too_long insert_id
insert_id-too_long id ids h = ground arith

abbrev pub Verdicts : Type 0
Verdicts = List (Situation × PutTestEvaluationRequest)

module _ (db : Database) (force : ℕ) (dir : Text) where
  -- Every request of a list is refused, and nothing is written.
  abbrev pub RefusesAll : Verdicts → Handler → Type 0
  RefusesAll [] h = Unit {0}
  RefusesAll ((w, q) ∷ rest) h =
      (h' : Handler) × (handle_put_test_evaluation db force dir w q h ≡ responded false h')
      × (h'.log ≡ h.log)
      × RefusesAll rest h'

  handle_blocked :
      (w : Situation) (q : PutTestEvaluationRequest) (h : Handler)
      → some_guid_too_long h.completed_not_yet_pushed ≡ true
      → h.time_of_last_flush + force < w.now
      → handle_put_test_evaluation db force dir w q h
        ≡ responded false
            (record h { completed_not_yet_pushed = insert_id q.id h.completed_not_yet_pushed })
  unfolding handle_put_test_evaluation after_completion mark_testcase_as_completed after_flush
      add_entries_to_completed_testcases
  handle_blocked w q h long late =
      let due : (ltb 100 (length (insert_id q.id h.completed_not_yet_pushed))
            || ltb force (w.now - h.time_of_last_flush))
          ≡ true =
        ground arith in
      rw (due, insert_id-too_long q.id h.completed_not_yet_pushed long) refl

  -- Where an identifier of 50 characters or more is in the set, no verdict is accepted any more from
  -- the time on at which the set is to be written, and nothing is written.
  pub blocked-RefusesAll :
      (verdicts : Verdicts) (h : Handler)
      → some_guid_too_long h.completed_not_yet_pushed ≡ true
      → All
          (λ (v : Situation × PutTestEvaluationRequest). h.time_of_last_flush + force < (v.0).now)
          verdicts
      → RefusesAll verdicts h
  blocked-RefusesAll [] h long late = tt
  blocked-RefusesAll ((w, q) ∷ rest) h long late =
      let h' : Handler = record h {
        completed_not_yet_pushed = insert_id q.id h.completed_not_yet_pushed;
      } in
      (
        h',
        handle_blocked w q h long late.0,
        refl,
        blocked-RefusesAll rest h' (insert_id-too_long q.id h.completed_not_yet_pushed long) late.1,
      )
