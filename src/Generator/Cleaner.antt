-- ===== src/Generator/Cleaner.antt =====
-- core/TestcaseGenerator/QueueCleanerWorker: the rounds in which a generator learns what was
-- evaluated, reports testcases that get no answer, and queues the others again. What the local
-- manager answers is an argument: `none` is a request without an answer.
pub mod Rounds
pub mod HangTimeout
use mathlib.Core.List.{reverse}
use fluffi.Base.{
  ℕ, zero, suc, ◌+◌, ◌-◌, ◌*◌, ◌≡◌, Bool, true, false, Option, none, some, List, [], ◌∷◌, ltb, ◌==◌,
  if◌then◌else◌, length, Text, codes, text_eq, ℤ, pos, negsuc, stoi,
}
use fluffi.Testcase.{TestcaseId, TestcaseDescriptor}
use fluffi.Collector.{Collector}
use fluffi.Generator.Manager.{
  Manager, delete_file, push_new_generated_testcase, remove_evaluated_testcases,
  reinsert_testcases_having_no_answer_since, hand_me_all_testcases_with_too_many_retries,
}

pub record Cleaner : Type 0 where
  pub intervall_between_two_cleaning_rounds : ℕ
  pub intervall_to_wait_for_reinsertion : ℕ
  pub max_retries_before_report : ℕ
  pub timestamp_of_newest_result : ℕ
  pub waited_ms : ℕ

unfoldable pub new_cleaner : ℕ → ℕ → Cleaner
new_cleaner intervall max_retries = record {
  intervall_between_two_cleaning_rounds = intervall;
  intervall_to_wait_for_reinsertion = 0;
  max_retries_before_report = max_retries;
  timestamp_of_newest_result = 0;
  waited_ms = 0;
}

-- GetNewCompletedTestcaseIDsResponse
pub record Completed : Type 0 where
  pub update_timestamp : ℕ
  pub ids : List TestcaseId

unfoldable pub remove_completed_testcases : Option Completed → Cleaner → Manager → Cleaner × Manager
remove_completed_testcases none c m = (c, m)
remove_completed_testcases (some r) c m = (
  record c { timestamp_of_newest_result = r.update_timestamp },
  remove_evaluated_testcases r.ids m,
)

-- The reports, and whether each is delivered; `n` reports follow this one.
unfoldable pub report_loop : (ℕ → Bool) → List TestcaseDescriptor → Manager → Manager
report_loop delivered [] m = m
report_loop delivered (t ∷ ts) m = report_loop delivered ts (
    if delivered (length ts)
    then record m { garbage_collector = delete_file t m.garbage_collector }
    else push_new_generated_testcase t m)

-- The vector is emptied from its back.
unfoldable pub report_testcases_with_multiple_no_response : (ℕ → Bool) → Cleaner → Manager → Manager
unfolding report_loop
report_testcases_with_multiple_no_response delivered c m =
    let (handed, m') = hand_me_all_testcases_with_too_many_retries c.max_retries_before_report m in
    report_loop delivered (reverse handed) m'

-- The settings of a GetFuzzJobConfigurationResponse. A `std::map` keeps the first value of a name.
abbrev pub Settings : Type 0
Settings = List (Text × Text)

unfoldable pub setting : Text → Settings → Option Text
setting name [] = none
setting name ((n, v) ∷ rest) = if text_eq n name then some v else setting name rest

-- What a setting of `hangTimeout` makes of the waiting time; `none` is the process exit on text
-- that is no number.
unfoldable pub raise_to_hang_timeout : Text → Cleaner → Option Cleaner
raise_to_hang_timeout v c = elim (stoi v) [
  | none ↦ none
  | some z ↦ elim z [
    | negsuc n ↦ some c
    | pos h ↦ some (
        if ltb c.intervall_to_wait_for_reinsertion (2 * h)
        then record c { intervall_to_wait_for_reinsertion = 2 * h }
        else c)
  ]
]

-- Whether the round goes on to reinsert, returns early, or the process exits.
pub data Waiting : Type 0 where
  goes_on returns_early : Cleaner → Waiting
  process_exit : Waiting

unfoldable pub read_hang_timeout : Option Settings → Cleaner → Waiting
unfolding raise_to_hang_timeout
read_hang_timeout none c = returns_early c
read_hang_timeout (some settings) c = elim (setting (codes "hangTimeout") settings) [
  | none ↦ returns_early c
  | some v ↦ elim (raise_to_hang_timeout v c) [ none ↦ process_exit | some c' ↦ goes_on c' ]
]

unfoldable pub find_waiting_time : Option Settings → Cleaner → Waiting
unfolding read_hang_timeout
find_waiting_time resp c =
    if c.intervall_to_wait_for_reinsertion == 0
    then read_hang_timeout resp (record c { intervall_to_wait_for_reinsertion = 5 * 60 * 1000 })
    else goes_on c

-- `none` is the process exit. `now` is the clock, in milliseconds.
unfoldable pub reinsert_testcases_with_no_response :
    Option Settings → ℕ → Cleaner → Manager → Option (Cleaner × Manager)
unfolding find_waiting_time
reinsert_testcases_with_no_response resp now c m = elim (find_waiting_time resp c) [
  | process_exit ↦ none
  | returns_early c' ↦ some (c', m)
  | goes_on c' ↦
      some (
        c',
        reinsert_testcases_having_no_answer_since (now - c'.intervall_to_wait_for_reinsertion) m,
      )
]

-- What the local manager answers in a round.
pub record Answers : Type 0 where
  pub completed : Option Completed
  pub delivered : ℕ → Bool
  pub configuration : Option Settings
  pub now : ℕ

unfoldable pub cleaning_round : Answers → Cleaner → Manager → Option (Cleaner × Manager)
unfolding remove_completed_testcases report_testcases_with_multiple_no_response
    reinsert_testcases_with_no_response
cleaning_round a c m =
    let (c', m') = remove_completed_testcases a.completed c m in
    reinsert_testcases_with_no_response a.configuration a.now c'
      (report_testcases_with_multiple_no_response a.delivered c' m')

-- A turn of `workerMain`'s loop: half a second of waiting, or a round.
unfoldable pub worker_turn : Answers → Cleaner → Manager → Option (Cleaner × Manager)
unfolding cleaning_round
worker_turn a c m =
    if ltb c.waited_ms c.intervall_between_two_cleaning_rounds
    then some (record c { waited_ms = c.waited_ms + 500 }, m)
    else cleaning_round a (record c { waited_ms = 0 }) m
