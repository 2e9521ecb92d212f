-- ===== src/Tests/Runner.antt =====
-- A runner with one generator and one evaluator, and the configuration of a runner.
use fluffi.Base.{◌≡◌, ◌⊎◌, refl, true, false, none, some, [], ◌∷◌, Text, codes, text_eq, stoi}
use fluffi.Testcase.{ServiceDescriptor, TestcaseId}
use fluffi.Collector.{new_collector}
use fluffi.Generator.Cleaner.{Settings, setting}
use fluffi.Strings.{string_has_ending}
use fluffi.Runner.Partners.{PartnerManager}
use fluffi.Runner.Config.{refused, read_executor}
use fluffi.Runner.Config.Demands.{outcome, meet_kind, demands}
use fluffi.Runner.Config.Required.{read_executor-demands}
use fluffi.Runner.Main.{clean, Runner, World, runner_turn}
use fluffi.Runner.Main.Turns.{Skipped, Ran, runner_turn-Ran}

abbrev gdb_settings : Settings
gdb_settings = (codes "targetCMDLine", codes "a.out") ∷ ((codes "hangTimeout", codes "5000") ∷ [])

abbrev gdb_runner : Text
gdb_runner = codes "x64_Lin_GDB"

read_executor-demands_example :
    outcome (read_executor gdb_settings true gdb_runner [])
    ≡ meet_kind gdb_settings (demands gdb_runner)
read_executor-demands_example = read_executor-demands gdb_settings true gdb_runner []

feeder_missing : meet_kind gdb_settings (demands gdb_runner) ≡ refused
unfolding string_has_ending text_eq setting stoi
feeder_missing = refl

abbrev generator : ServiceDescriptor
generator = record { service_host_and_port = codes "tg:1"; guid = codes "g" }

abbrev evaluator : ServiceDescriptor
evaluator = record { service_host_and_port = codes "te:1"; guid = codes "e" }

abbrev only : ServiceDescriptor → PartnerManager
only sd = record {
  weigth_sum = 1;
  comm_descriptor_set = record { service_descriptor = sd; weight = 1 } ∷ [];
}

abbrev first_testcase : TestcaseId
first_testcase = record { service_descriptor = generator; local_id = 1 }

abbrev calm : World
calm = record {
  generators = only generator;
  evaluators = only evaluator;
  draw_generator = λ n. 1;
  draw_evaluator = λ n. 1;
  generator_answer = λ hap. some (record {
    success = true;
    id = first_testcase;
    parent_id = first_testcase;
    force_full_coverage = false;
    testcase_first_chunk = codes "abc";
    is_last_chunk = true;
  });
  storing = record {
    fuel = 1;
    stop = λ n. false;
    draws = λ n k. record { random = 0; removable = true };
    can_open = true;
    ask = λ n. none;
  };
  execute = λ id force. record {
    termination_type = clean;
    termination_description = [];
    first_crash = [];
    last_crash = [];
    covered_basic_blocks = [];
    has_full_coverage = false;
  };
  last_chunk_before = false;
  file_then = λ files name. some (codes "abc");
  evaluator_answer = λ hap push. some true;
  fetch_ms = 3;
  push_ms = 4;
}

abbrev fresh : Runner
fresh = record {
  number_of_processed_testcases = 0;
  collector = new_collector 1000;
  warnhist_pre = false ∷ false ∷ false ∷ false ∷ false ∷ [];
  warnhist_post = false ∷ false ∷ false ∷ false ∷ false ∷ [];
}

runner_turn-Ran_example :
    Skipped 1000 generator
      (codes "/tmp")
      calm
      fresh
      []
      (runner_turn 1000 generator (codes "/tmp") calm fresh [])
    ⊎ Ran 1000 generator
        (codes "/tmp")
        calm
        fresh
        []
        (runner_turn 1000 generator (codes "/tmp") calm fresh [])
runner_turn-Ran_example = runner_turn-Ran 1000 generator (codes "/tmp") calm fresh []
