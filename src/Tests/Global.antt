-- ===== src/Tests/Global.antt =====
-- The global manager's registrations, and the question whether an agent is welcome.
use fluffi.Base.{
  ◌≡◌, ◌≢◌, ◌||◌, ◌&&◌, ◌==◌, text_eq_self, Bool-cases, inl, inr, ℕ, none, refl, Bool, true, false,
  some, List, [], ◌∷◌, arith, Text, codes, text_eq, pos, if◌then◌else◌, stoi,
}
use fluffi.Generator.Cleaner.{Settings, setting}
use fluffi.Strings.{split_string}
use fluffi.LocalManager.Registration.{
  testcase_generator, local_manager, Shares, desired_subtypes, normalize, choose_subtype,
  decide_sub_agent_type, is_worker,
}
use fluffi.LocalManager.Welcome.{is_welcomed}
use fluffi.GlobalManager.Registration.{
  ServiceDescriptor, LmConfiguration, GmRegistration, send_to, Change, set_lm, remove_worker,
  add_worker, GmDatabase, is_welcomed_response, AskWelcome, handle_gm_registration,
}
use fluffi.GlobalManager.Registration.Answers.{Answered, handle_gm_registration-Answered}
use fluffi.GlobalManager.Monitor.{
  kill_response, no_status_reply, status_response, Peers, Command, monitor_round,
}
use fluffi.GlobalManager.Monitor.Rounds.{
  removed, reported, settled, collect, is_silent, has_status, replying, verdicts,
  monitor_round-settles,
}
use fluffi.GlobalManager.Registration.Race.{Step, gives, UniqueKey}
use fluffi.GlobalManager.Registration.Assignments.{assigned_worker-sent}

abbrev radamsa_name : Text
radamsa_name = codes "RadamsaMutator"

abbrev mixed_settings : Settings
mixed_settings = (codes "generatorTypes", codes "RadamsaMutator=50|AFLMutator=50") ∷ []

abbrev three_radamsas : Shares
three_radamsas = (radamsa_name, pos 3) ∷ []

abbrev two_names : List Text
two_names = radamsa_name ∷ (codes "AFLMutator" ∷ [])

chosen_run :
    decide_sub_agent_type mixed_settings three_radamsas testcase_generator two_names
    ≡ some (codes "AFLMutator")
unfolding decide_sub_agent_type desired_subtypes setting text_eq stoi split_string choose_subtype
    normalize
chosen_run = refl

chosen_present : codes "AFLMutator" ≢ []
chosen_present = λ e. ground (arith, e)

generator_worker_run : is_worker testcase_generator ≡ true
unfolding is_worker
generator_worker_run = refl

abbrev manager : ServiceDescriptor
manager = record { guid = codes "lm"; host_and_port = codes "lm:1" }

abbrev fuzz_job_database : LmConfiguration
fuzz_job_database = record {
  db_host = codes "db";
  db_user = codes "u";
  db_password = codes "p";
  db_name = codes "job7";
  fuzz_job_name = codes "seven";
}

-- A database that keeps the changes, or refuses them.
abbrev gm_database : Bool → GmDatabase (List Change)
gm_database accepts = record {
  lm_for_worker = λ d w. some manager;
  fuzz_job_without_lm = λ d l. some 7;
  lm_configuration = λ d j. some fuzz_job_database;
  change = λ c d. if accepts then (c ∷ d, true) else (d, false);
}

abbrev ask_manager : AskWelcome
ask_manager hap type subtypes = is_welcomed_response (is_welcomed mixed_settings type subtypes)

abbrev generator_worker : GmRegistration
generator_worker = record {
  type = testcase_generator;
  implemented_subtypes = two_names;
  location = codes "lab";
  descriptor = record { guid = codes "g"; host_and_port = codes "g:1" };
}

abbrev idle_manager : GmRegistration
idle_manager = record {
  type = local_manager;
  implemented_subtypes = [];
  location = codes "lab";
  descriptor = manager;
}

assigned_worker-sent_example :
    handle_gm_registration (gm_database true) ask_manager generator_worker []
    ≡ ([], send_to manager)
assigned_worker-sent_example =
    assigned_worker-sent (gm_database true) ask_manager generator_worker [] manager mixed_settings
      three_radamsas (codes "AFLMutator") generator_worker_run refl refl chosen_run chosen_present

handle_gm_registration-Answered_example :
    Answered
      (gm_database true)
      ask_manager
      generator_worker
      []
      (handle_gm_registration (gm_database true) ask_manager generator_worker [])
handle_gm_registration-Answered_example =
    handle_gm_registration-Answered (gm_database true) ask_manager generator_worker []

-- The local manager "a:1" replies, and no other.
abbrev one_alive : Peers
one_alive = record {
  kill = λ hap. kill_response;
  status =
      λ hap. if text_eq hap (codes "a:1") then status_response (codes "ok") [] else no_status_reply;
}

abbrev two_commands : List Command
two_commands = (1, (codes "kill", codes "b:1")) ∷ ((2, (codes "restart", codes "b:1")) ∷ [])

abbrev two_managers : List (Text × Text)
two_managers = (codes "A", codes "a:1") ∷ ((codes "B", codes "b:1") ∷ [])

monitor_round-settles_example :
    (collect removed (monitor_round one_alive two_commands (λ events. two_managers))
      ≡ replying is_silent one_alive two_managers)
    × (collect reported (monitor_round one_alive two_commands (λ events. two_managers))
        ≡ replying has_status one_alive two_managers)
    × (collect settled (monitor_round one_alive two_commands (λ events. two_managers))
        ≡ verdicts one_alive two_commands)
monitor_round-settles_example =
    monitor_round-settles one_alive two_commands (λ events. two_managers)

silent_run : replying is_silent one_alive two_managers ≡ codes "B" ∷ []
unfolding replying is_silent text_eq
silent_run = refl

-- The rows of the local managers, with their key.
abbrev Rows : Type 0
Rows = Text → ℕ → Bool

abbrev keyed_change : Change → Rows → Rows × Bool
keyed_change (set_lm location s job) d =
    if d location job
    then (d, false)
    else ((λ l j. (text_eq l location && j == job) || d l j), true)
keyed_change (remove_worker s) d = (d, true)
keyed_change (add_worker s type subtypes location) d = (d, true)

abbrev keyed_database : GmDatabase Rows
keyed_database = record {
  lm_for_worker = λ d w. none;
  fuzz_job_without_lm = λ d l. if d l 7 then none else some 7;
  lm_configuration = λ d j. some fuzz_job_database;
  change = keyed_change;
}

keyed-keeps :
    (d : Rows) (location : Text) (job : ℕ) (c : Change)
    → d location job ≡ true
    → (keyed_change c d).0 location job ≡ true
keyed-keeps d location job (set_lm l s j) t = elim (Bool-cases (d l j)) [
  | inl e ↦ rw e t
  | inr e ↦ rw e (ground (arith, t))
]
keyed-keeps d location job (remove_worker s) t = t
keyed-keeps d location job (add_worker s type subtypes l) t = t

keyed-refuses :
    (d : Rows) (location : Text) (s : ServiceDescriptor) (job : ℕ)
    → d location job ≡ true
    → (keyed_change (set_lm location s job) d).1 ≡ false
keyed-refuses d location s job t = rw t refl

keyed-takes :
    (d : Rows) (location : Text) (s : ServiceDescriptor) (job : ℕ)
    → (keyed_change (set_lm location s job) d).1 ≡ true
    → (keyed_change (set_lm location s job) d).0 location job ≡ true
keyed-takes d location s job h = elim (Bool-cases (d location job)) [
  | inl e ↦ ground (arith, h, e)
  | inr e ↦ rw e (ground (arith, text_eq_self location))
]

abbrev keyed_unique : UniqueKey keyed_database
keyed_unique = record {
  taken = λ d l j. d l j;
  refuses = keyed-refuses;
  takes = keyed-takes;
  keeps = keyed-keeps;
}

-- Two local managers that both read job 7 before either got its row.
abbrev racing : List Step
racing =
    gives idle_manager 7 (some fuzz_job_database)
    ∷ (gives idle_manager 7 (some fuzz_job_database) ∷ [])

abbrev no_rows : Rows
no_rows l j = false
