-- ===== src/Generator/Manager/Ledger.antt =====
-- No testcase is lost or doubled by the queues of TGTestcaseManager.
use fluffi.Base.{
  ℕ, ◌+◌, ◌≡◌, inl, inr, refl, ap, true, false, Option, none, some, List, [], ◌∷◌, ◌++◌, arith,
  if◌then◌else◌, Bool-cases, All, Text, text_instance, contains, contains-insert_self,
  contains-insert_mono, append-nil,
}
use fluffi.Testcase.{TestcaseId, id_eq, TestcaseDescriptor}
use fluffi.Collector.{Collector}
use fluffi.Generator.Manager.{
  Manager, delete_file, push_new_generated_testcases, sent_now, pop_pending_tc_for_processing,
  find_id, remove_loop, remove_evaluated_testcases, reinsert_loop,
  reinsert_testcases_having_no_answer_since, retries_loop,
  hand_me_all_testcases_with_too_many_retries,
}

-- How often a testcase stands in a list.
unfoldable pub count : TestcaseId → List TestcaseDescriptor → ℕ
count k [] = 0
count k (t ∷ ts) = (if id_eq t.id k then 1 else 0) + count k ts

pub count-append :
    (k : TestcaseId) (xs ys : List TestcaseDescriptor)
    → count k (xs ++ ys) ≡ count k xs + count k ys
unfolding count
count-append k [] ys = omega arith
count-append k (x ∷ xs) ys = omega (arith, count-append k xs ys)

-- The calls of the other threads, with what they depend on.
pub data Call : Type 0 where
  pushes : List TestcaseDescriptor → Call
  pops : ℕ → Call
  removes : List TestcaseId → Call
  reinserts : ℕ → Call
  hands_out : ℕ → Call

-- The testcases that have an evaluation.
unfoldable pub evaluated : List TestcaseId → List TestcaseDescriptor → List TestcaseDescriptor
unfolding find_id
evaluated ids [] = []
evaluated ids (t ∷ ts) = let rest = evaluated ids ts in if find_id ids t.id then t ∷ rest else rest

abbrev pub after_pop : Manager → Option (TestcaseDescriptor × Manager) → Manager
after_pop m none = m
after_pop m (some (t, m')) = m'

-- A call: the testcases that it takes away for good, and the state that it leaves.
unfoldable pub step : Call → Manager → List TestcaseDescriptor × Manager
unfolding push_new_generated_testcases pop_pending_tc_for_processing evaluated
    remove_evaluated_testcases reinsert_testcases_having_no_answer_since
    hand_me_all_testcases_with_too_many_retries
step (pushes ts) m = ([], push_new_generated_testcases ts m)
step (pops now) m = ([], after_pop m (pop_pending_tc_for_processing now m))
step (removes ids) m = (evaluated ids m.sent_but_not_evaluated, remove_evaluated_testcases ids m)
step (reinserts before) m = ([], reinsert_testcases_having_no_answer_since before m)
step (hands_out max_retries) m = hand_me_all_testcases_with_too_many_retries max_retries m

unfoldable pub run : List Call → Manager → List TestcaseDescriptor × Manager
run [] m = ([], m)
run (c ∷ cs) m = let (gone, m') = step c m in let (later, m'') = run cs m' in (gone ++ later, m'')

unfoldable pub pushed : List Call → List TestcaseDescriptor
pushed [] = []
pushed (pushes ts ∷ cs) = ts ++ pushed cs
pushed (pops now ∷ cs) = pushed cs
pushed (removes ids ∷ cs) = pushed cs
pushed (reinserts before ∷ cs) = pushed cs
pushed (hands_out n ∷ cs) = pushed cs

abbrev pub held : TestcaseId → Manager → ℕ
held k m = count k m.pending_testcase_queue + count k m.sent_but_not_evaluated

count-sent_now :
    (k : TestcaseId) (now : ℕ) (t : TestcaseDescriptor)
    → count k (sent_now now t ∷ []) ≡ count k (t ∷ [])
unfolding count sent_now
count-sent_now k now t = refl

count-pop :
    (k : TestcaseId) (now : ℕ) (m : Manager)
    → (q : List TestcaseDescriptor) → m.pending_testcase_queue ≡ q
    → held k (after_pop m (pop_pending_tc_for_processing now m)) ≡ held k m
unfolding pop_pending_tc_for_processing
count-pop k now m [] e = ground arith
count-pop k now m (t ∷ rest) e = ground (
  arith,
  count-append k m.sent_but_not_evaluated (sent_now now t ∷ []),
  count-sent_now k now t,
  count-append k (t ∷ []) rest,
)

count-remove_loop :
    (k : TestcaseId) (ids : List TestcaseId) (ts : List TestcaseDescriptor) (g : Collector)
    → count k (evaluated ids ts) + count k (remove_loop ids ts g).0 ≡ count k ts
unfolding count evaluated remove_loop
count-remove_loop k ids [] g = refl
count-remove_loop k ids (t ∷ ts) g =
    ground (arith, count-remove_loop k ids ts g, count-remove_loop k ids ts (delete_file t g))

count-reinsert_loop :
    (k : TestcaseId) (before : ℕ) (pending ts : List TestcaseDescriptor)
    → count k (reinsert_loop before pending ts).0 + count k (reinsert_loop before pending ts).1
      ≡ count k pending + count k ts
unfolding count reinsert_loop
count-reinsert_loop k before pending [] = refl
count-reinsert_loop k before pending (t ∷ ts) = ground (
  arith,
  count-reinsert_loop k before pending ts,
  count-reinsert_loop k before (pending ++ (t ∷ [])) ts,
  count-append k pending (t ∷ []),
)

count-retries_loop :
    (k : TestcaseId) (n : ℕ) (ts : List TestcaseDescriptor)
    → count k (retries_loop n ts).0 + count k (retries_loop n ts).1 ≡ count k ts
unfolding count retries_loop
count-retries_loop k n [] = refl
count-retries_loop k n (t ∷ ts) = ground (arith, count-retries_loop k n ts)

step-count :
    (k : TestcaseId) (c : Call) (m : Manager)
    → count k (step c m).0 + held k (step c m).1 ≡ held k m + count k (pushed (c ∷ []))
unfolding step pushed count
step-count k (pushes ts) m =
    ground (arith, count-append k m.pending_testcase_queue ts, append-nil ts)
step-count k (pops now) m = ground (arith, count-pop k now m m.pending_testcase_queue refl)
step-count k (removes ids) m =
    ground (arith, count-remove_loop k ids m.sent_but_not_evaluated m.garbage_collector)
step-count k (reinserts before) m =
    ground (arith, count-reinsert_loop k before m.pending_testcase_queue m.sent_but_not_evaluated)
step-count k (hands_out n) m = ground (arith, count-retries_loop k n m.sent_but_not_evaluated)

pushed-cons : (c : Call) (cs : List Call) → pushed (c ∷ cs) ≡ pushed (c ∷ []) ++ pushed cs
unfolding pushed
pushed-cons (pushes ts) cs = rw append-nil
pushed-cons (pops now) cs = refl
pushed-cons (removes ids) cs = refl
pushed-cons (reinserts before) cs = refl
pushed-cons (hands_out n) cs = refl

-- Over any sequence of calls, in any interleaving of the threads, each testcase that was held or
-- pushed is, as often, still pending, or sent and without evaluation, or taken away: as evaluated,
-- or handed out for its retries.
pub run-count :
    (k : TestcaseId) (cs : List Call) (m : Manager)
    → count k (run cs m).0 + held k (run cs m).1 ≡ held k m + count k (pushed cs)
unfolding run count pushed
run-count k [] m = ground arith
run-count k (c ∷ cs) m = omega (
  arith,
  run-count k cs (step c m).1,
  step-count k c m,
  count-append k (step c m).0 (run cs (step c m).1).0,
  ap (count k) (pushed-cons c cs),
  count-append k (pushed (c ∷ [])) (pushed cs),
)

-- The files of the testcases are marked.
abbrev pub Marked : Collector → List TestcaseDescriptor → Type 0
Marked g = All (λ t. contains t.path_and_file_name g.set_of_files_to_delete ≡ true)

remove_loop_mono :
    (ids : List TestcaseId) (ts : List TestcaseDescriptor) (g : Collector) (f : Text)
    → contains f g.set_of_files_to_delete ≡ true
    → contains f (remove_loop ids ts g).1.set_of_files_to_delete ≡ true
unfolding remove_loop delete_file
remove_loop_mono ids [] g f h = h
remove_loop_mono ids (t ∷ ts) g f h = elim (Bool-cases (find_id ids t.id)) [
  | inl e ↦ rw e (
      remove_loop_mono ids ts (delete_file t g) f
        (contains-insert_mono t.path_and_file_name f g.set_of_files_to_delete h))
  | inr e ↦ rw e (remove_loop_mono ids ts g f h)
]

remove_loop-Marked :
    (ids : List TestcaseId) (ts : List TestcaseDescriptor) (g : Collector)
    → Marked (remove_loop ids ts g).1 (evaluated ids ts)
      × All (λ t. find_id ids t.id ≡ false) (remove_loop ids ts g).0
unfolding remove_loop evaluated delete_file
remove_loop-Marked ids [] g = (tt, tt)
remove_loop-Marked ids (t ∷ ts) g = elim (Bool-cases (find_id ids t.id)) [
  | inl e ↦
      let ih = remove_loop-Marked ids ts (delete_file t g) in
      rw e (
        (
          remove_loop_mono ids ts (delete_file t g) t.path_and_file_name
              (contains-insert_self t.path_and_file_name g.set_of_files_to_delete),
          ih.0,
        ),
        ih.1,
      )
  | inr e ↦ let ih = remove_loop-Marked ids ts g in rw e (ih.0, (e, ih.1))
]

-- Removing the evaluated testcases marks the file of each that was sent and is evaluated, and
-- leaves none of them among the sent ones; the pending queue stays.
pub remove_evaluated-Marked :
    (ids : List TestcaseId) (m : Manager)
    → Marked
        (remove_evaluated_testcases ids m).garbage_collector
        (evaluated ids m.sent_but_not_evaluated)
      × All
          (λ t. find_id ids t.id ≡ false)
          (remove_evaluated_testcases ids m).sent_but_not_evaluated
      × ((remove_evaluated_testcases ids m).pending_testcase_queue ≡ m.pending_testcase_queue)
unfolding remove_evaluated_testcases
remove_evaluated-Marked ids m =
    let r = remove_loop-Marked ids m.sent_but_not_evaluated m.garbage_collector in (r.0, r.1, refl)
