-- ===== src/Tests/Queues.antt =====
-- The generator's queues, its cleaner and its filler.
use fluffi.Base.{
  ℕ, zero, suc, ◌+◌, ◌≡◌, refl, true, false, Option, none, some, List, [], ◌∷◌, length, contains,
  insert, text_instance, arith, codes, text_eq, pos, stoi,
}
use fluffi.Testcase.{
  TestcaseId, id_eq, TestcaseDescriptor, to_string, new_descriptor,
  generate_testcase_path_and_filename,
}
use fluffi.Collector.{Collector, Files, collect_now, mark_file_for_delete, collect_garbage}
use fluffi.Collector.Round.{Kept, collect_garbage-keeps}
use fluffi.Generator.Manager.{
  Manager, reinsert_testcases_having_no_answer_since, hand_me_all_testcases_with_too_many_retries,
  get_pending_testcase_queue_size, push_new_generated_testcases, push_new_generated_testcase,
  remove_evaluated_testcases,
}
use fluffi.Generator.Manager.Ledger.{
  Call, pushes, pops, removes, reinserts, hands_out, count, run, pushed, held, run-count,
}
use fluffi.Generator.Cleaner.{
  Cleaner, Answers, Settings, setting, goes_on, returns_early, find_waiting_time, cleaning_round,
}
use fluffi.Generator.Cleaner.Rounds.{Bounded, cleaning_round-Bounded}
use fluffi.Generator.Filler.{
  Filler, Turn, radamsa, special_id, produce, with_parent, get_new_parent, generate, adapt,
  drop_parent, worker_turn,
}
use fluffi.Generator.Filler.Growth.{InRange, Obeys, worker_turn-InRange}
use fluffi.Collector.Emptying.{collect_garbage_empties}
use fluffi.Generator.Cleaner.HangTimeout.{find_waiting_time-sticks}
use fluffi.Tests.Data.{id_of, one, two, marked, disk, removable, stubborn, manager}

collect_garbage-keeps_example :
    (g' : Collector) × (files' : Files) × (collect_garbage stubborn marked disk ≡ some (g', files'))
    × Kept marked disk g' files'
unfolding contains text_eq
collect_garbage-keeps_example = collect_garbage-keeps stubborn marked disk refl

collect_garbage_empties_example :
    (g' : Collector) × (files' : Files) × (collect_garbage removable marked disk
      ≡ some (g', files'))
    × (length g'.set_of_files_to_delete ≡ 0)
unfolding contains text_eq
collect_garbage_empties_example = collect_garbage_empties removable marked disk (λ i. refl) refl

-- A testcase is sent, sent again, and evaluated; another is handed out.
abbrev calls : List Call
calls =
    pops 100
    ∷ (reinserts 200
        ∷ (pops 300 ∷ (pushes (two ∷ []) ∷ (removes (id_of 1 ∷ []) ∷ (hands_out 0 ∷ [])))))

run-count_example :
    count (id_of 2) (run calls manager).0 + held (id_of 2) (run calls manager).1
    ≡ held (id_of 2) manager + count (id_of 2) (pushed calls)
run-count_example = run-count (id_of 2) calls manager

manager-Bounded : Bounded 3 manager
manager-Bounded = record { waiting = (omega arith, tt); out = (omega arith, tt) }

abbrev cleaner : Cleaner
cleaner = record {
  intervall_between_two_cleaning_rounds = 1000;
  intervall_to_wait_for_reinsertion = 0;
  max_retries_before_report = 3;
  timestamp_of_newest_result = 0;
  waited_ms = 1000;
}

abbrev hang_settings : Settings
hang_settings = (codes "hangTimeout", codes "400000") ∷ []

abbrev answers : Answers
answers = record {
  completed = some (record { update_timestamp = 9; ids = id_of 2 ∷ [] });
  delivered = λ i. true;
  configuration = some hang_settings;
  now = 5000000;
}

-- What a round with these answers leaves.
abbrev cleaner_after : Cleaner
cleaner_after = record cleaner {
  intervall_to_wait_for_reinsertion = 800000;
  timestamp_of_newest_result = 9;
}

abbrev manager_after : Manager
manager_after = record {
  pending_testcase_queue = one ∷ [];
  sent_but_not_evaluated = [];
  garbage_collector = record marked {
    set_of_files_to_delete = codes "t/g1-2" ∷ (codes "t/g1-7" ∷ []);
  };
}

cleaning_round_run : cleaning_round answers cleaner manager ≡ some (cleaner_after, manager_after)
unfolding cleaning_round setting text_eq stoi reinsert_testcases_having_no_answer_since
    hand_me_all_testcases_with_too_many_retries remove_evaluated_testcases id_eq insert
cleaning_round_run = refl

cleaning_round-Bounded_example : Bounded 3 manager_after
cleaning_round-Bounded_example =
    cleaning_round-Bounded answers cleaner cleaner_after manager manager_after (λ i. refl)
      manager-Bounded cleaning_round_run

hang_timeout_read : setting (codes "hangTimeout") hang_settings ≡ some (codes "400000")
unfolding setting text_eq
hang_timeout_read = refl

hang_timeout_number : stoi (codes "400000") ≡ some (pos 400000)
unfolding stoi
hang_timeout_number = refl

abbrev waits_five_minutes : Cleaner
waits_five_minutes = record cleaner { intervall_to_wait_for_reinsertion = 300000 }

no_answer : find_waiting_time none cleaner ≡ returns_early waits_five_minutes
unfolding find_waiting_time
no_answer = refl

find_waiting_time-sticks_example :
    (find_waiting_time (some hang_settings) waits_five_minutes ≡ goes_on waits_five_minutes)
    × (waits_five_minutes.intervall_to_wait_for_reinsertion ≡ 300000)
find_waiting_time-sticks_example =
    find_waiting_time-sticks none (some hang_settings) cleaner waits_five_minutes refl no_answer

abbrev filler : Filler
filler = record {
  got_config_from_lm = true;
  desired_queue_fill_level = 5;
  queue_filler_temp_dir = codes "tmp";
  testcase_directory = codes "t";
  bulk_generation_size = 2;
  max_bulk_generation_size = 4;
  my_agent_sub_types = [];
  mutator = some radamsa;
  mutator_needs_parents = true;
}

-- Every batch is the child `one`.
abbrev one_child : ℕ → TestcaseId → Option (List TestcaseDescriptor)
one_child zero i = none
one_child (suc n) i = some (one ∷ [])

one_child-Obeys : Obeys one_child
one_child-Obeys zero i ts e = ground arith
one_child-Obeys (suc n) i ts e = ground arith

abbrev turn : Turn
turn = record {
  functionable = λ m. true;
  configuration = none;
  parent = some (record { id = id_of 9; file_stored = true; also_run_without_mutation = true });
  mutate = one_child;
  parent_removed = false;
}

filler-InRange : InRange filler manager
filler-InRange = record { one_at_least = omega arith; at_most = omega arith; queue = ground arith }

-- What the turn leaves: the parent, run without a mutation, and its child wait as well.
abbrev manager_filled : Manager
manager_filled = record {
  pending_testcase_queue =
      one
      ∷ (record {
        id = id_of 9;
        parent_id = special_id;
        path_and_file_name = codes "t/g1-9";
        num_of_processing_attempts = 0;
        time_of_last_send = 0;
        force_full_coverage = true;
      }
          ∷ (one ∷ []));
  sent_but_not_evaluated = two ∷ [];
  garbage_collector = record marked {
    set_of_files_to_delete = codes "tmp/g1-9" ∷ (codes "t/g1-7" ∷ []);
    waited_ms = 1000;
  };
}

worker_turn_run :
    worker_turn turn filler manager disk
    ≡ some (record filler { bulk_generation_size = 3 }, manager_filled, codes "t/g1-9" ∷ disk)
unfolding worker_turn produce get_pending_testcase_queue_size with_parent get_new_parent contains
    text_eq generate_testcase_path_and_filename to_string generate adapt drop_parent
    push_new_generated_testcases collect_now push_new_generated_testcase mark_file_for_delete
    new_descriptor insert
worker_turn_run = refl

worker_turn-InRange_example : InRange (record filler { bulk_generation_size = 3 }) manager_filled
worker_turn-InRange_example =
    worker_turn-InRange turn filler (record filler { bulk_generation_size = 3 }) manager
      manager_filled disk (codes "t/g1-9" ∷ disk) one_child-Obeys filler-InRange worker_turn_run
