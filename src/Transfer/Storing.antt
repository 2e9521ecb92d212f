-- ===== src/Transfer/Storing.antt =====
-- Util::storeTestcaseFileOnDisk: a testcase file is written only where no file of that name is in
-- use; one that waits for its deletion is deleted first.
pub mod Overwriting
use fluffi.Base.{
  ℕ, zero, suc, ◌+◌, Bool, true, false, not, ◌||◌, Option, none, some, List, [], ◌∷◌, if◌then◌else◌,
  Text, text_instance, contains, insert,
}
use fluffi.Testcase.{TestcaseId, generate_testcase_path_and_filename}
use fluffi.Collector.{
  Files, Collector, Draw, is_file_marked_for_deletion, collect_now, collect_garbage,
}
use fluffi.Transfer.Chunks.{Bytes, append_remaining_chunks}

-- The end of the wait for the collector.
pub data Wait : Type 0 where
  waits_on process_exit : Wait
  ready : Collector → Files → Wait

-- `while (!m_stopRequested && exists(filename))`. The fuel left names the turn.
unfoldable pub clear_loop : ℕ → (ℕ → Bool) → (ℕ → ℕ → Draw) → Text → Collector → Files → Wait
clear_loop zero stop draws name g files = waits_on
clear_loop (suc n) stop draws name g files =
    if stop n || not (contains name files)
    then ready g files
    else elim (collect_garbage (draws n) (collect_now g) files) [
      | none ↦ process_exit
      | some (g', files') ↦ clear_loop n stop draws name g' files'
    ]

-- What the call meets: the fuel of its two loops, requests to stop, the collector's draws, whether
-- the file can be opened, and the answers to the requests for chunks.
pub record Meets : Type 0 where
  pub fuel : ℕ
  pub stop : ℕ → Bool
  pub draws : ℕ → ℕ → Draw
  pub can_open : Bool
  pub ask : ℕ → Option (Bytes × Bool)

-- The Boolean that is returned, what was written to the file, the marks and the files.
pub data Outcome : Type 0 where
  lacks_fuel exited : Outcome
  returned : Bool → Option Bytes → Collector → Files → Outcome

unfoldable pub write_chunks : Meets → Text → Bytes → Bool → Collector → Files → Outcome
write_chunks w name first is_last g files =
    if w.can_open
    then (if is_last
        then returned true (some first) g (insert name files)
        else elim (append_remaining_chunks w.fuel w.ask 1 first) [
          | none ↦ lacks_fuel
          | some (success, bytes) ↦ returned success (some bytes) g (insert name files)
        ])
    else returned false none g files

unfoldable pub after_wait : Meets → Text → Bytes → Bool → Wait → Outcome
after_wait w name first is_last waits_on = lacks_fuel
after_wait w name first is_last process_exit = exited
after_wait w name first is_last (ready g files) =
    if contains name files
    then returned false none g files
    else write_chunks w name first is_last g files

unfoldable pub store_testcase_file :
    Meets → TestcaseId → Text → Bytes → Bool → Collector → Files → Outcome
unfolding clear_loop write_chunks after_wait is_file_marked_for_deletion
store_testcase_file w id dir first is_last g files =
    let name = generate_testcase_path_and_filename id dir in
    if contains name files
    then (if is_file_marked_for_deletion name g
        then after_wait w name first is_last (clear_loop w.fuel w.stop w.draws name g files)
        else returned false none g files)
    else write_chunks w name first is_last g files
