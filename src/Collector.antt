-- ===== src/Collector.antt =====
-- core/SharedCode/GarbageCollectorWorker: files that are to be deleted are marked, and a round of
-- the collector tries to delete marked files in random order.
pub mod Round
pub mod Drawing
pub mod Emptying
use fluffi.Base.{
  ℕ, zero, suc, ◌+◌, ◌*◌, ◌%◌, Bool, true, false, Option, none, some, List, [], ◌∷◌, ◌==◌, ltb,
  if◌then◌else◌, length, get_elem?, erase_at, Text, text_eq, text_instance, contains, insert,
  without,
}

-- The names of the files that exist.
abbrev pub Files : Type 0
Files = List Text

pub record Collector : Type 0 where
  pub intervall_between_two_collection_rounds : ℕ
  pub set_of_files_to_delete : List Text
  pub waited_ms : ℕ
  pub stop_requested : Bool

-- What a round meets: the random number that is drawn, and whether `std::remove` succeeds.
pub record Draw : Type 0 where
  pub random : ℕ
  pub removable : Bool

unfoldable pub new_collector : ℕ → Collector
new_collector n = record {
  intervall_between_two_collection_rounds = n;
  set_of_files_to_delete = [];
  waited_ms = 0;
  stop_requested = false;
}

unfoldable pub mark_file_for_delete : Text → Collector → Collector
mark_file_for_delete f g = record g { set_of_files_to_delete = insert f g.set_of_files_to_delete }

unfoldable pub is_file_marked_for_deletion : Text → Collector → Bool
is_file_marked_for_deletion f g = contains f g.set_of_files_to_delete

unfoldable pub collect_now : Collector → Collector
collect_now g = record g { waited_ms = g.intervall_between_two_collection_rounds }

-- `none` is the call of `_exit` behind the iterator check. The empty text says that no file is
-- marked.
unfoldable pub get_random_file_to_delete : ℕ → Collector → Option (Text × Collector)
get_random_file_to_delete random g =
    if length g.set_of_files_to_delete == 0
    then some ([], g)
    else picked (random % length g.set_of_files_to_delete)
  where
    picked : ℕ → Option (Text × Collector)
    picked i = elim (get_elem? g.set_of_files_to_delete i) [
      | none ↦ none
      | some f ↦ some (f, record g { set_of_files_to_delete = erase_at g.set_of_files_to_delete i })
    ]

-- What one iteration of the loop leaves, and whether the loop goes on.
pub data Iteration : Type 0 where
  process_exit : Iteration
  break continue : Collector → Files → Iteration

-- `exists` with an error code also answers false where it cannot tell; here it always can.
unfoldable pub attempt : Text → Bool → Collector → Files → Iteration
unfolding mark_file_for_delete
attempt f removable g files =
    if text_eq f []
    then break g files
    else if contains f files
    then (if removable
        then continue g (without f files)
        else continue (mark_file_for_delete f g) files)
    else continue g files

unfoldable pub iterate : Draw → Collector → Files → Iteration
unfolding get_random_file_to_delete attempt
iterate d g files = elim (get_random_file_to_delete d.random g) [
  | none ↦ process_exit
  | some (f, g') ↦ attempt f d.removable g' files
]

-- The loop over the iterations that are left; `none` is a process that has exited.
unfoldable pub collect_loop : ℕ → (ℕ → Draw) → Collector → Files → Option (Collector × Files)
unfolding iterate
collect_loop zero draws g files = some (g, files)
collect_loop (suc n) draws g files = elim (iterate (draws n) g files) [
  | process_exit ↦ none
  | break g' files' ↦ some (g', files')
  | continue g' files' ↦ collect_loop n draws g' files'
]

unfoldable pub collect_garbage : (ℕ → Draw) → Collector → Files → Option (Collector × Files)
unfolding collect_loop
collect_garbage draws g files = collect_loop (length g.set_of_files_to_delete * 10) draws g files

-- A turn of `workerMain`'s loop: half a second of waiting, or a round.
unfoldable pub worker_turn : (ℕ → Draw) → Collector → Files → Option (Collector × Files)
unfolding collect_garbage
worker_turn draws g files =
    if ltb g.waited_ms g.intervall_between_two_collection_rounds
    then some (record g { waited_ms = g.waited_ms + 500 }, files)
    else collect_garbage draws (record g { waited_ms = 0 }) files

-- The destructor's last attempts: up to a hundred for each file that is still marked.
-- `removed f` says whether one of them succeeds.
unfoldable pub delete_remaining : (Text → Bool) → List Text → Files → Files
delete_remaining removed [] files = files
delete_remaining removed (f ∷ fs) files =
    delete_remaining removed fs (if removed f then without f files else files)
