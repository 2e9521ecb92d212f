-- ===== src/Tests/Data.antt =====
-- Inputs that the tests share.
use fluffi.Base.{ℕ, true, false, [], ◌∷◌, codes}
use fluffi.Testcase.{ServiceDescriptor, TestcaseId, TestcaseDescriptor}
use fluffi.Collector.{Collector, Draw, Files}
use fluffi.Generator.Manager.{Manager}

abbrev pub generator : ServiceDescriptor
generator = record { service_host_and_port = codes "10.0.0.2:6001"; guid = codes "g1" }

abbrev pub moved_generator : ServiceDescriptor
moved_generator = record { service_host_and_port = codes "10.0.0.9:7001"; guid = codes "g1" }

abbrev pub id_of : ℕ → TestcaseId
id_of n = record { service_descriptor = generator; local_id = n }

abbrev pub one : TestcaseDescriptor
one = record {
  id = id_of 1;
  parent_id = id_of 0;
  path_and_file_name = codes "t/g1-1";
  num_of_processing_attempts = 0;
  time_of_last_send = 0;
  force_full_coverage = false;
}

abbrev pub two : TestcaseDescriptor
two = record {
  id = id_of 2;
  parent_id = id_of 0;
  path_and_file_name = codes "t/g1-2";
  num_of_processing_attempts = 1;
  time_of_last_send = 40;
  force_full_coverage = false;
}

-- A collector with one file to delete.
abbrev pub marked : Collector
marked = record {
  intervall_between_two_collection_rounds = 1000;
  set_of_files_to_delete = codes "t/g1-7" ∷ [];
  waited_ms = 0;
  stop_requested = false;
}

abbrev pub disk : Files
disk = codes "t/g1-7" ∷ (codes "t/g1-1" ∷ [])

-- Every removal succeeds.
abbrev pub removable : ℕ → Draw
removable n = record { random = n; removable = true }

abbrev pub stubborn : ℕ → Draw
stubborn n = record { random = n; removable = false }

-- One testcase waits, one is out.
abbrev pub manager : Manager
manager = record {
  pending_testcase_queue = one ∷ [];
  sent_but_not_evaluated = two ∷ [];
  garbage_collector = marked;
}
