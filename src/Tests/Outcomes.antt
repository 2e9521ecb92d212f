-- ===== src/Tests/Outcomes.antt =====
-- The evaluator, and the runner's choice of a partner.
use fluffi.Base.{
  ℕ, ◌+◌, ◌*◌, ◌≡◌, ◌↔◌, true, false, ◌||◌, none, List, [], ◌∷◌, ◌++◌, if◌then◌else◌, contains,
  text_instance, arith, codes, pos, negsuc,
}
use fluffi.Evaluator.Blocks.{Block, block_instance, sorted_set}
use fluffi.Evaluator.Blocks.Order.{Ascending, sorted_set-strips}
use fluffi.Evaluator.Results.{clean_exit, TestOutcome}
use fluffi.Evaluator.Coverage.{keep, discard, Evaluator, Surroundings, process_test_outcome}
use fluffi.Evaluator.Coverage.Decision.{dull, process-decides}
use fluffi.Runner.Partners.{
  ServiceAndWeight, PartnerManager, host, get_next_partner, update_comm_partners,
}
use fluffi.Runner.Partners.Choice.{next_partner-proportional}
use fluffi.Tests.Data.{generator, id_of, marked}

abbrev block_a : Block
block_a = record { module_id = negsuc 0; rva = 16 }

abbrev block_b : Block
block_b = record { module_id = pos 2; rva = 8 }

abbrev block_c : Block
block_c = record { module_id = pos 2; rva = 9 }

abbrev blocks : List Block
blocks = block_c ∷ (block_a ∷ (block_c ∷ []))

abbrev outcome : TestOutcome
outcome = record {
  id = id_of 4;
  parent_id = id_of 1;
  test_result = record {
    exit_type = clean_exit;
    blocks = blocks;
    crash_footprint = [];
    has_full_coverage = false;
  };
}

abbrev evaluator : Evaluator
evaluator = record {
  testcase_dir = codes "t";
  cache = block_c ∷ [];
  collector = marked;
  send_timeout = 105000;
}

abbrev around : Surroundings
around = record {
  first_chunk = codes "AAAA";
  is_last_chunk = true;
  own = generator;
  answered = false;
}

process-decides_example :
    ((process_test_outcome around outcome evaluator).0.eval
      ≡ (if dull outcome (block_c ∷ []) then discard else keep))
    × (((process_test_outcome around outcome evaluator).0.optional ≡ none)
        ↔ (dull outcome (block_c ∷ []) ≡ true))
    × ((b : Block)
        → contains b (process_test_outcome around outcome evaluator).1.cache
          ≡ (contains b blocks || contains b (block_c ∷ [])))
process-decides_example = process-decides around outcome evaluator

abbrev partner : ℕ → ServiceAndWeight
partner n = record {
  service_descriptor = record { service_host_and_port = codes "e" ++ ((48 + n) ∷ []); guid = [] };
  weight = 100 * n;
}

abbrev nobody_yet : PartnerManager
nobody_yet = record { weigth_sum = 0; comm_descriptor_set = [] }

next_partner-proportional_example :
    get_next_partner (λ n. 101) (update_comm_partners (partner 1 ∷ (partner 2 ∷ [])) nobody_yet).1
    ≡ host (codes "e2")
next_partner-proportional_example =
    next_partner-proportional (λ n. 101) (partner 1 ∷ []) (partner 2) [] nobody_yet (omega arith)
      (omega arith, (omega arith, tt)) (omega arith) (omega arith)

sorted_set-strips_example :
    Ascending (sorted_set blocks [])
    × ((b : Block) → contains b (sorted_set blocks []) ≡ contains b blocks)
sorted_set-strips_example = sorted_set-strips blocks
