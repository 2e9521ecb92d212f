-- ===== src/Evaluator/Results/Handler.antt =====
-- What the answer to a PutTestResultRequest promises.
use fluffi.Base.{◌≡◌, refl, Bool, true, false, [], ◌∷◌, ◌++◌, arith, if◌then◌else◌, text_eq_self}
use fluffi.Testcase.{TestcaseId, id_eq}
use fluffi.Evaluator.Results.{
  TestOutcome, Outcomes, is_there_already_a_tod_for, handle_put_test_result,
}

id_eq_self : (i : TestcaseId) → id_eq i i ≡ true
unfolding id_eq
id_eq_self i = ground (arith, text_eq_self i.service_descriptor.guid)

pushed_is_there :
    (t : TestOutcome) (q : Outcomes) → is_there_already_a_tod_for t.id (q ++ (t ∷ [])) ≡ true
unfolding is_there_already_a_tod_for
pushed_is_there t [] = ground (arith, id_eq_self t.id)
pushed_is_there t (x ∷ q) = ground (arith, pushed_is_there t q)

-- The answer says success exactly when an outcome of that testcase is in the queue afterwards, in
-- both cases of storing its file; and the queue grows, at its end, exactly when the file was stored.
pub handle-success :
    (stored : Bool) (t : TestOutcome) (q : Outcomes)
    → ((handle_put_test_result stored t q).0
        ≡ is_there_already_a_tod_for t.id (handle_put_test_result stored t q).1)
      × ((handle_put_test_result stored t q).1 ≡ (if stored then q ++ (t ∷ []) else q))
unfolding handle_put_test_result
handle-success true t q = (ground (arith, pushed_is_there t q), refl)
handle-success false t q = (refl, refl)
