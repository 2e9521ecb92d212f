-- ===== src/Generator/Cleaner/Rounds.antt =====
-- How often a testcase is sent.
use mathlib.Core.List.{reverse}
use fluffi.Base.{
  ℕ, ◌+◌, ◌-◌, ◌<◌, ◌≡◌, refl, subst, ◌∙◌, Bool, true, Option, none, some, List, [], ◌∷◌, ◌++◌,
  arith, length, All, All-append, text_instance,
}
use fluffi.Testcase.{TestcaseId, TestcaseDescriptor}
use fluffi.Collector.{Collector}
use fluffi.Generator.Manager.{
  Manager, sent_now, delete_file, pop_pending_tc_for_processing, remove_loop,
  remove_evaluated_testcases, reinsert_loop, reinsert_testcases_having_no_answer_since,
  retries_loop, hand_me_all_testcases_with_too_many_retries,
}
use fluffi.Generator.Manager.Ledger.{after_pop}
use fluffi.Generator.Cleaner.{
  Cleaner, Completed, Settings, Answers, Waiting, goes_on, returns_early, process_exit,
  find_waiting_time, remove_completed_testcases, report_loop,
  report_testcases_with_multiple_no_response, reinsert_testcases_with_no_response, cleaning_round,
}

abbrev pub Below : ℕ → List TestcaseDescriptor → Type 0
Below n = All (λ t. t.num_of_processing_attempts < n)

-- What waits was sent less than `n` times, and what is out at most `n` times.
pub record Bounded (n : ℕ) (m : Manager) : Type 0 where
  pub waiting : Below n m.pending_testcase_queue
  pub out : Below (n + 1) m.sent_but_not_evaluated

abbrev PopOf : ℕ → ℕ → Manager → List TestcaseDescriptor → Type 0
PopOf n now m q =
    m.pending_testcase_queue ≡ q
    → Below n q
    → Below (n + 1) m.sent_but_not_evaluated
    → Bounded n (after_pop m (pop_pending_tc_for_processing now m))

pop_of : (n now : ℕ) (m : Manager) (q : List TestcaseDescriptor) → PopOf n now m q
unfolding pop_pending_tc_for_processing
pop_of n now m [] e w o = rw (e, pop_pending_tc_for_processing) (record { waiting = tt; out = o })
pop_of n now m (t ∷ rest) e w o =
    rw (e, pop_pending_tc_for_processing)
      (record {
        waiting = w.1;
        out =
            All-append (λ t. t.num_of_processing_attempts < n + 1) m.sent_but_not_evaluated
              (sent_now now t ∷ []) o (omega arith, tt);
      })

-- Popping a testcase for processing keeps this bound: what waits was sent less than `n` times, and
-- what is out at most `n` times.
pub pop-Bounded :
    (n now : ℕ) (m : Manager)
    → Bounded n m
    → Bounded n (after_pop m (pop_pending_tc_for_processing now m))
pop-Bounded n now m b = pop_of n now m m.pending_testcase_queue refl b.waiting b.out

remove_loop-Below :
    (n : ℕ) (ids : List TestcaseId) (ts : List TestcaseDescriptor) (g : Collector)
    → Below n ts
    → Below n (remove_loop ids ts g).0
unfolding remove_loop
remove_loop-Below n ids [] g b = tt
remove_loop-Below n ids (t ∷ ts) g b =
    ground
      (arith, remove_loop-Below n ids ts g b.1, remove_loop-Below n ids ts (delete_file t g) b.1)

retries_loop-Below : (n : ℕ) (ts : List TestcaseDescriptor) → Below n (retries_loop n ts).1
unfolding retries_loop
retries_loop-Below n [] = tt
retries_loop-Below n (t ∷ ts) = ground (arith, retries_loop-Below n ts)

reinsert_loop-Below :
    (n before : ℕ) (pending ts : List TestcaseDescriptor)
    → Below n pending
    → Below n ts
    → Below n (reinsert_loop before pending ts).0 × Below n (reinsert_loop before pending ts).1
unfolding reinsert_loop
reinsert_loop-Below n before pending [] p b = (p, tt)
reinsert_loop-Below n before pending (t ∷ ts) p b =
    let more : Below n (pending ++ (t ∷ [])) =
      All-append (λ t. t.num_of_processing_attempts < n) pending (t ∷ []) p (b.0, tt) in
    ground (
      arith,
      reinsert_loop-Below n before pending ts p b.1,
      reinsert_loop-Below n before (pending ++ (t ∷ [])) ts more b.1,
    )

Below-mono : (n : ℕ) (ts : List TestcaseDescriptor) → Below n ts → Below (n + 1) ts
Below-mono n [] b = tt
Below-mono n (t ∷ ts) b = (omega arith, Below-mono n ts b.1)

-- A delivered report leaves the queues alone and marks the file.
report_loop-delivered :
    (delivered : ℕ → Bool) (ts : List TestcaseDescriptor) (m : Manager)
    → ((i : ℕ) → delivered i ≡ true)
    → ((report_loop delivered ts m).pending_testcase_queue ≡ m.pending_testcase_queue)
      × ((report_loop delivered ts m).sent_but_not_evaluated ≡ m.sent_but_not_evaluated)
unfolding report_loop
report_loop-delivered delivered [] m h = (refl, refl)
report_loop-delivered delivered (t ∷ ts) m h =
    rw (h (length ts), report_loop)
      (report_loop-delivered delivered ts
        (record m { garbage_collector = delete_file t m.garbage_collector }) h)

report-Below :
    (delivered : ℕ → Bool) (c : Cleaner) (m : Manager)
    → ((i : ℕ) → delivered i ≡ true)
    → Below c.max_retries_before_report m.pending_testcase_queue
    → Below c.max_retries_before_report
        (report_testcases_with_multiple_no_response delivered c m).pending_testcase_queue
      × Below c.max_retries_before_report
          (report_testcases_with_multiple_no_response delivered c m).sent_but_not_evaluated
unfolding report_testcases_with_multiple_no_response hand_me_all_testcases_with_too_many_retries
report-Below delivered c m h b =
    let r = retries_loop c.max_retries_before_report m.sent_but_not_evaluated in
    let e =
      report_loop-delivered delivered (reverse r.0) (record m { sent_but_not_evaluated = r.1 }) h in
    rw (e.0, e.1) (b, retries_loop-Below c.max_retries_before_report m.sent_but_not_evaluated)

abbrev after_waiting : ℕ → Manager → Waiting → Option (Cleaner × Manager)
after_waiting now m process_exit = none
after_waiting now m (returns_early c) = some (c, m)
after_waiting now m (goes_on c) =
    some
      (c, reinsert_testcases_having_no_answer_since (now - c.intervall_to_wait_for_reinsertion) m)

after_waiting-Bounded :
    (n now : ℕ) (m : Manager) (w : Waiting) (c' : Cleaner) (m' : Manager)
    → Below n m.pending_testcase_queue
    → Below n m.sent_but_not_evaluated
    → after_waiting now m w ≡ some (c', m')
    → Bounded n m'
unfolding reinsert_testcases_having_no_answer_since
after_waiting-Bounded n now m process_exit c' m' p b e = cc
after_waiting-Bounded n now m (returns_early c) c' m' p b e =
    let e' : m ≡ m' = cc in
    subst (Bounded n) e' (record { waiting = p; out = Below-mono n m.sent_but_not_evaluated b })
after_waiting-Bounded n now m (goes_on c) c' m' p b e =
    let r =
      reinsert_loop-Below n (now - c.intervall_to_wait_for_reinsertion) m.pending_testcase_queue
        m.sent_but_not_evaluated p b in
    let e' : reinsert_testcases_having_no_answer_since (now - c.intervall_to_wait_for_reinsertion) m
        ≡ m' =
      cc in
    subst (Bounded n) e' (record { waiting = r.0; out = Below-mono n _ r.1 })

reinsert-Bounded :
    (resp : Option Settings) (n now : ℕ) (c : Cleaner) (m : Manager) (c' : Cleaner) (m' : Manager)
    → Below n m.pending_testcase_queue
    → Below n m.sent_but_not_evaluated
    → reinsert_testcases_with_no_response resp now c m ≡ some (c', m')
    → Bounded n m'
unfolding reinsert_testcases_with_no_response
reinsert-Bounded resp n now c m c' m' p b e =
    after_waiting-Bounded n now m (find_waiting_time resp c) c' m' p b
      (split (find_waiting_time resp c) ∙ e)
  where
    split :
        (w : Waiting)
        → after_waiting now m w ≡ elim w [
          | process_exit ↦ none
          | returns_early c' ↦ some (c', m)
          | goes_on c' ↦ some (
            c',
            reinsert_testcases_having_no_answer_since
                (now - c'.intervall_to_wait_for_reinsertion)
                m,
          )
        ]
    split process_exit = refl
    split (returns_early c) = refl
    split (goes_on c) = refl

-- A round in which every report is delivered keeps the bound: no testcase is sent more than
-- `max_retries_before_report` times.
pub cleaning_round-Bounded :
    (a : Answers) (c c' : Cleaner) (m m' : Manager)
    → ((i : ℕ) → a.delivered i ≡ true)
    → Bounded c.max_retries_before_report m
    → cleaning_round a c m ≡ some (c', m')
    → Bounded c.max_retries_before_report m'
unfolding cleaning_round
cleaning_round-Bounded a c c' m m' h b e = go a.completed e
  where
    go :
        (r : Option Completed)
        → reinsert_testcases_with_no_response a.configuration a.now
            (remove_completed_testcases r c m).0
            (report_testcases_with_multiple_no_response a.delivered
              (remove_completed_testcases r c m).0
              (remove_completed_testcases r c m).1)
          ≡ some (c', m')
        → Bounded c.max_retries_before_report m'
    go none e =
        unfold remove_completed_testcases in
        (let r = report-Below a.delivered c m h b.waiting in
          reinsert-Bounded a.configuration c.max_retries_before_report a.now c _ c' m' r.0 r.1 e)
    go (some k) e =
        unfold remove_completed_testcases remove_evaluated_testcases in
        (let d = record c { timestamp_of_newest_result = k.update_timestamp } in
          let r = report-Below a.delivered d (remove_evaluated_testcases k.ids m) h b.waiting in
          reinsert-Bounded a.configuration c.max_retries_before_report a.now d _ c' m' r.0 r.1 e)
