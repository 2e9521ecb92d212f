-- ===== src/Testcase.antt =====
-- Testcases: core/SharedCode/FluffiServiceDescriptor, FluffiTestcaseID and
-- core/TestcaseGenerator/TestcaseDescriptor, and the file that holds a testcase
-- (Util::generateTestcasePathAndFilename).
pub mod Filename
use fluffi.Base.{
  ℕ, zero, suc, ◌+◌, ◌-◌, ◌/◌, ◌%◌, ◌≡◌, ◌↔◌, Bool, true, false, ◌&&◌, List, [], ◌∷◌, ◌++◌, arith,
  ◌==◌, if◌then◌else◌, Text, codes, text_eq, text_eq_iff, Eq,
}

pub record ServiceDescriptor : Type 0 where
  pub service_host_and_port : Text
  pub guid : Text

pub record TestcaseId : Type 0 where
  pub service_descriptor : ServiceDescriptor
  pub local_id : ℕ

-- `operator==`: the host and the port of the service do not count.
unfoldable pub id_eq : TestcaseId → TestcaseId → Bool
id_eq a b = text_eq a.service_descriptor.guid b.service_descriptor.guid && a.local_id == b.local_id

pub record TestcaseDescriptor : Type 0 where
  pub id : TestcaseId
  pub parent_id : TestcaseId
  pub path_and_file_name : Text
  pub num_of_processing_attempts : ℕ
  pub time_of_last_send : ℕ
  pub force_full_coverage : Bool

unfoldable pub new_descriptor : TestcaseId → TestcaseId → Text → Bool → TestcaseDescriptor
new_descriptor id parent path full = record {
  id = id;
  parent_id = parent;
  path_and_file_name = path;
  num_of_processing_attempts = 0;
  time_of_last_send = 0;
  force_full_coverage = full;
}

unfoldable pub increase_num_of_processing_attempts : TestcaseDescriptor → TestcaseDescriptor
increase_num_of_processing_attempts t = record t {
  num_of_processing_attempts = t.num_of_processing_attempts + 1;
}

-- The clock is read by the caller.
unfoldable pub update_time_of_last_send : ℕ → TestcaseDescriptor → TestcaseDescriptor
update_time_of_last_send now t = record t { time_of_last_send = now }

-- `std::to_string`: the decimal digits, most significant first. The fuel `n + 1` is more than
-- the number of digits.
digits : ℕ → ℕ → Text → Text
digits zero n acc = acc
digits (suc f) n acc =
    let rest = digits f (n / 10) ((48 + n % 10) ∷ acc) in
    if n / 10 == 0 then (48 + n % 10) ∷ acc else rest

unfoldable pub to_string : ℕ → Text
unfolding digits
to_string n = digits (suc n) n []

unfoldable pub generate_testcase_path_and_filename : TestcaseId → Text → Text
generate_testcase_path_and_filename id dir =
    dir ++ (codes "/" ++ (id.service_descriptor.guid ++ (codes "-" ++ to_string id.local_id)))
