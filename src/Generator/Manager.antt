-- ===== src/Generator/Manager.antt =====
-- core/TestcaseGenerator/TGTestcaseManager: the testcases that wait to be run and those that were
-- sent to a runner and have no evaluation yet. Every operation holds the mutex throughout.
pub mod Ledger
use fluffi.Base.{
  ℕ, ◌≡◌, Bool, true, false, ◌||◌, Option, none, some, List, [], ◌∷◌, ◌++◌, ltb, leb, if◌then◌else◌,
  length,
}
use fluffi.Testcase.{
  TestcaseId, id_eq, TestcaseDescriptor, increase_num_of_processing_attempts,
  update_time_of_last_send,
}
use fluffi.Collector.{Collector, mark_file_for_delete}

pub record Manager : Type 0 where
  pub pending_testcase_queue : List TestcaseDescriptor
  pub sent_but_not_evaluated : List TestcaseDescriptor
  pub garbage_collector : Collector

-- TestcaseDescriptor::deleteFile
unfoldable pub delete_file : TestcaseDescriptor → Collector → Collector
unfolding mark_file_for_delete
delete_file t g = mark_file_for_delete t.path_and_file_name g

unfoldable pub push_new_generated_testcase : TestcaseDescriptor → Manager → Manager
push_new_generated_testcase t m = record m {
  pending_testcase_queue = m.pending_testcase_queue ++ (t ∷ []);
}

unfoldable pub push_new_generated_testcases : List TestcaseDescriptor → Manager → Manager
push_new_generated_testcases ts m = record m {
  pending_testcase_queue = m.pending_testcase_queue ++ ts;
}

-- The descriptor that leaves the queue, counted and stamped with the time of the call.
unfoldable pub sent_now : ℕ → TestcaseDescriptor → TestcaseDescriptor
unfolding increase_num_of_processing_attempts update_time_of_last_send
sent_now now t = update_time_of_last_send now (increase_num_of_processing_attempts t)

-- `none` is the exception "No pending testcases".
unfoldable pub pop_pending_tc_for_processing : ℕ → Manager → Option (TestcaseDescriptor × Manager)
unfolding sent_now
pop_pending_tc_for_processing now m = elim m.pending_testcase_queue [
  | [] ↦ none
  | t ∷ rest ↦ some (
    sent_now now t,
    record m {
      pending_testcase_queue = rest;
      sent_but_not_evaluated = m.sent_but_not_evaluated ++ (sent_now now t ∷ []);
    },
  )
]

-- `std::find` over the identifiers of a message.
unfoldable pub find_id : List TestcaseId → TestcaseId → Bool
find_id [] i = false
find_id (e ∷ es) i = id_eq e i || find_id es i

-- The loop over the sent testcases: those that stay, and the collector.
unfoldable pub remove_loop :
    List TestcaseId → List TestcaseDescriptor → Collector → List TestcaseDescriptor × Collector
unfolding find_id delete_file
remove_loop ids [] g = ([], g)
remove_loop ids (t ∷ ts) g =
    let found = find_id ids t.id in
    let (kept, g') = remove_loop ids ts (if found then delete_file t g else g) in
    (if found then kept else t ∷ kept, g')

unfoldable pub remove_evaluated_testcases : List TestcaseId → Manager → Manager
unfolding remove_loop
remove_evaluated_testcases ids m =
    let (kept, g) = remove_loop ids m.sent_but_not_evaluated m.garbage_collector in
    record m { sent_but_not_evaluated = kept; garbage_collector = g }

-- The loop over the sent testcases: the pending queue, and those that stay.
unfoldable pub reinsert_loop :
    ℕ
    → List TestcaseDescriptor
    → List TestcaseDescriptor
    → List TestcaseDescriptor × List TestcaseDescriptor
reinsert_loop before pending [] = (pending, [])
reinsert_loop before pending (t ∷ ts) =
    let old = ltb t.time_of_last_send before in
    let (pending', kept) = reinsert_loop before (if old then pending ++ (t ∷ []) else pending) ts in
    (pending', if old then kept else t ∷ kept)

unfoldable pub reinsert_testcases_having_no_answer_since : ℕ → Manager → Manager
unfolding reinsert_loop
reinsert_testcases_having_no_answer_since before m =
    let (pending, kept) = reinsert_loop before m.pending_testcase_queue m.sent_but_not_evaluated in
    record m { pending_testcase_queue = pending; sent_but_not_evaluated = kept }

-- The loop over the sent testcases: those that are handed out, and those that stay.
unfoldable pub retries_loop :
    ℕ → List TestcaseDescriptor → List TestcaseDescriptor × List TestcaseDescriptor
retries_loop max_retries [] = ([], [])
retries_loop max_retries (t ∷ ts) =
    let (handed, kept) = retries_loop max_retries ts in
    if leb max_retries t.num_of_processing_attempts then (t ∷ handed, kept) else (handed, t ∷ kept)

unfoldable pub hand_me_all_testcases_with_too_many_retries :
    ℕ → Manager → List TestcaseDescriptor × Manager
unfolding retries_loop
hand_me_all_testcases_with_too_many_retries max_retries m =
    let (handed, kept) = retries_loop max_retries m.sent_but_not_evaluated in
    (handed, record m { sent_but_not_evaluated = kept })

unfoldable pub get_pending_testcase_queue_size : Manager → ℕ
get_pending_testcase_queue_size m = length m.pending_testcase_queue

unfoldable pub get_sent_but_not_evaluated_size : Manager → ℕ
get_sent_but_not_evaluated_size m = length m.sent_but_not_evaluated

unfoldable pub delete_files : List TestcaseDescriptor → Collector → Collector
unfolding delete_file
delete_files [] g = g
delete_files (t ∷ ts) g = delete_files ts (delete_file t g)

-- The destructor.
unfoldable pub destruct : Manager → Collector
unfolding delete_files
destruct m =
    delete_files m.sent_but_not_evaluated
      (delete_files m.pending_testcase_queue m.garbage_collector)
