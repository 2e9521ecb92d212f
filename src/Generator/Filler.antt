-- ===== src/Generator/Filler.antt =====
-- core/TestcaseGenerator/QueueFillerWorker: the loop that keeps the pending queue filled with
-- mutated testcases. What the mutators, the network and the disk do is an argument.
pub mod Growth
use fluffi.Base.{
  ℕ, ◌+◌, ◌-◌, ◌<◌, ◌≡◌, Bool, true, false, ◌&&◌, ◌||◌, not, Option, none, some, List, [], ◌∷◌, ltb,
  ◌==◌, if◌then◌else◌, length, Text, codes, text_eq, text_instance, contains,
}
use fluffi.Testcase.{
  ServiceDescriptor, TestcaseId, TestcaseDescriptor, new_descriptor,
  generate_testcase_path_and_filename,
}
use fluffi.Collector.{Collector, Files, mark_file_for_delete, collect_now}
use fluffi.Generator.Manager.{
  Manager, push_new_generated_testcase, push_new_generated_testcases,
  get_pending_testcase_queue_size,
}
use fluffi.Generator.Cleaner.{Settings, setting}

pub data Mutator : Type 0 where
  radamsa afl carrot honggfuzz oedipus : Mutator
  external : Text → Mutator

pub record Filler : Type 0 where
  pub got_config_from_lm : Bool
  pub desired_queue_fill_level : ℕ
  pub queue_filler_temp_dir : Text
  pub testcase_directory : Text
  pub bulk_generation_size : ℕ
  pub max_bulk_generation_size : ℕ
  pub my_agent_sub_types : List Text
  pub mutator : Option Mutator
  pub mutator_needs_parents : Bool

-- The mutator of a name, and whether it needs parents.
unfoldable pub choose_mutator : Text → Settings → Option (Mutator × Bool)
choose_mutator t settings =
    if text_eq t (codes "RadamsaMutator")
    then some (radamsa, true)
    else if text_eq t (codes "AFLMutator")
    then some (afl, true)
    else if text_eq t (codes "CaRRoTMutator")
    then some (carrot, true)
    else if text_eq t (codes "HonggfuzzMutator")
    then some (honggfuzz, true)
    else if text_eq t (codes "OedipusMutator")
    then some (oedipus, true)
    else if text_eq t (codes "ExternalMutator")
    then some (external (directory (setting (codes "extGeneratorDirectory") settings)), false)
    else none
  where
    -- `operator[]` of a map makes an empty text for a missing name.
    directory : Option Text → Text
    directory none = []
    directory (some d) = d

-- `none` is the process exit; the Boolean is the result of the call.
unfoldable pub install :
    (Mutator → Bool) → Option (Mutator × Bool) → Filler → Option (Bool × Filler)
install functionable none f = none
install functionable (some (m, parents)) f =
    if functionable m
    then some (
      true,
      record f {
        mutator = some m;
        mutator_needs_parents = (if parents then f.mutator_needs_parents else false);
      },
    )
    else none

-- What the setting chosenSubtype leads to.
unfoldable pub choose : (Mutator → Bool) → Settings → Option Text → Filler → Option (Bool × Filler)
choose functionable settings none f = some (false, f)
choose functionable settings (some t) f =
    if contains t f.my_agent_sub_types
    then install functionable (choose_mutator t settings) f
    else some (false, f)

unfoldable pub try_get_config_from_lm :
    (Mutator → Bool) → Option Settings → Filler → Option (Bool × Filler)
unfolding choose install choose_mutator
try_get_config_from_lm functionable none f = some (false, f)
try_get_config_from_lm functionable (some settings) f =
    choose functionable settings (setting (codes "chosenSubtype") settings) f

-- What Util::storeTestcaseFileOnDisk made of a GetTestcaseToMutateResponse.
pub record Parent : Type 0 where
  pub id : TestcaseId
  pub file_stored : Bool
  pub also_run_without_mutation : Bool

abbrev pub special_id : TestcaseId
special_id = record {
  service_descriptor = record { service_host_and_port = codes "special"; guid = codes "special" };
  local_id = 0;
}

-- `none` is the exception; `files` are those on the disk, and the copy of the parent is one more.
-- `filesystem::exists` and `copy` are taken not to throw; where they do, the outcome is `none` as well.
unfoldable pub get_new_parent :
    Option Parent → Filler → Manager × Files → Option (TestcaseId × Manager × Files)
get_new_parent none f s = none
get_new_parent (some p) f (m, files) =
    if p.file_stored
    then (if p.also_run_without_mutation
          && not (contains (generate_testcase_path_and_filename p.id f.testcase_directory) files)
        then some (
          p.id,
          push_new_generated_testcase
              (new_descriptor p.id special_id
                (generate_testcase_path_and_filename p.id f.testcase_directory) true)
              m,
          generate_testcase_path_and_filename p.id f.testcase_directory ∷ files,
        )
        else some (p.id, m, files))
    else none

-- The outcome of `batchMutate`: `none` is the exception.
unfoldable pub adapt : Option (List TestcaseDescriptor) → Filler → Manager → Filler × Manager
adapt none f m = (
  if ltb 1 f.bulk_generation_size
      then record f { bulk_generation_size = f.bulk_generation_size - 1 }
      else f,
  m,
)
adapt (some children) f m = if length children == 0 then (f, m) else (
  if ltb f.bulk_generation_size f.max_bulk_generation_size
      then record f { bulk_generation_size = f.bulk_generation_size + 1 }
      else f,
  push_new_generated_testcases children m,
)

-- The file of the parent is removed, or marked for the collector, which is woken up.
unfoldable pub drop_parent : Bool → Text → Filler → Manager → Manager
drop_parent removed path f m =
    if f.mutator_needs_parents && not removed
    then record m {
      garbage_collector = collect_now (mark_file_for_delete path m.garbage_collector);
    }
    else m

-- What a turn of the loop meets. `mutate n` is the outcome of `batchMutate` for `n` children.
pub record Turn : Type 0 where
  pub functionable : Mutator → Bool
  pub configuration : Option Settings
  pub parent : Option Parent
  pub mutate : ℕ → TestcaseId → Option (List TestcaseDescriptor)
  pub parent_removed : Bool

abbrev pub no_parent : TestcaseId
no_parent = record {
  service_descriptor = record { service_host_and_port = []; guid = [] };
  local_id = 0;
}

-- The part of a turn that follows `getNewParent`.
unfoldable pub generate : Turn → TestcaseId → Filler → Manager → Filler × Manager
unfolding adapt drop_parent
generate t parent f m =
    let (f', m') = adapt (t.mutate f.bulk_generation_size parent) f m in
    (
      f',
      drop_parent t.parent_removed
          (generate_testcase_path_and_filename parent f.queue_filler_temp_dir) f' m',
    )

-- What follows `getNewParent`: the next turn of the loop, or a batch of mutations.
unfoldable pub with_parent :
    Turn
    → Filler
    → Manager
    → Files
    → Option (TestcaseId × Manager × Files)
    → Filler × Manager × Files
with_parent t f m files none = (f, m, files)
with_parent t f m files (some (id, m', files')) =
    let (f', m'') = generate t id f m' in (f', m'', files')

unfoldable pub produce : Turn → Filler → Manager → Files → Filler × Manager × Files
produce t f m files =
    if ltb f.desired_queue_fill_level (get_pending_testcase_queue_size m)
    then (f, m, files)
    else if f.mutator_needs_parents
    then with_parent t f m files (get_new_parent t.parent f (m, files))
    else with_parent t f m files (some (no_parent, m, files))

-- Whether the loop goes on after `tryGetConfigFromLM`.
unfoldable pub configured :
    Turn → Manager → Files → Option (Bool × Filler) → Option (Filler × Manager × Files)
configured t m files none = none
configured t m files (some (got, f)) =
    if got
    then some (produce t (record f { got_config_from_lm = true }) m files)
    else some (f, m, files)

-- A turn of `workerMain`'s loop; `none` is the process exit.
unfoldable pub worker_turn : Turn → Filler → Manager → Files → Option (Filler × Manager × Files)
worker_turn t f m files =
    if f.got_config_from_lm
    then some (produce t f m files)
    else configured t m files (try_get_config_from_lm t.functionable t.configuration f)
