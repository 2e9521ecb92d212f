-- ===== src/Transfer/Storing/Overwriting.antt =====
-- No testcase file that is in use is overwritten, and one that is marked makes room.
use fluffi.Base.{
  ℕ, suc, ◌≡◌, refl, ap, ◌∙◌, Bool, true, false, none, some, List, [], ◌∷◌, arith, length, Text,
  text_instance, contains, insert, contains-insert_self,
}
use fluffi.Testcase.{TestcaseId, generate_testcase_path_and_filename}
use fluffi.Collector.{Files, Collector, Draw, is_file_marked_for_deletion, collect_now}
use fluffi.Collector.Round.{collect_garbage-keeps}
use fluffi.Collector.Emptying.{collect_garbage_empties}
use fluffi.Transfer.Chunks.{Bytes}
use fluffi.Transfer.Storing.{
  ready, clear_loop, Meets, returned, write_chunks, after_wait, store_testcase_file,
}

-- A file of that name that is not marked is left alone: the call says `false`, writes nothing, and
-- changes neither the files nor the marks.
pub store-refuses :
    (w : Meets) (id : TestcaseId) (dir : Text) (first : Bytes) (is_last : Bool) (g : Collector)
    (files : Files)
    → contains (generate_testcase_path_and_filename id dir) files ≡ true
    → is_file_marked_for_deletion (generate_testcase_path_and_filename id dir) g ≡ false
    → store_testcase_file w id dir first is_last g files ≡ returned false none g files
unfolding store_testcase_file
store-refuses w id dir first is_last g files h m = rw (h, m)

contains_of_empty : (x : Text) (xs : List Text) → length xs ≡ 0 → contains x xs ≡ false
unfolding contains
contains_of_empty x [] h = refl
contains_of_empty x (y ∷ ys) h = absurd (omega arith)

-- Where every removal succeeds, one round of the collector clears the way.
clear_loop-ready :
    (n : ℕ) (stop : ℕ → Bool) (draws : ℕ → ℕ → Draw) (name : Text) (g : Collector) (files : Files)
    → ((i : ℕ) → stop i ≡ false)
    → ((i j : ℕ) → (draws i j).removable ≡ true)
    → contains [] files ≡ false
    → contains [] g.set_of_files_to_delete ≡ false
    → contains name files ≡ true
    → contains name g.set_of_files_to_delete ≡ true
    → (g' : Collector) × (files' : Files) × (clear_loop (suc (suc n)) stop draws name g files
        ≡ ready g' files')
      × (contains name files' ≡ false)
      × (contains name g'.set_of_files_to_delete ≡ false)
unfolding clear_loop collect_now
clear_loop-ready n stop draws name g files s r e m h k =
    let g0 = collect_now g in
    let (g1, files1, run1, empty) =
      collect_garbage_empties (draws (suc n)) g0 files (r (suc n)) m in
    let (g2, files2, run2, kept) = collect_garbage-keeps (draws (suc n)) g0 files e in
    let same : ◌≡◌ {A = Collector × Files} (g1, files1) (g2, files2) = cc in
    let unmarked : contains name g2.set_of_files_to_delete ≡ false =
      contains_of_empty name g2.set_of_files_to_delete (ground arith) in
    let gone : contains name files2 ≡ false = ground (arith, kept.marks name k) in
    (g2, files2, rw (s (suc n), h, run2, clear_loop) (rw (s n, gone)), gone, unmarked)

-- Where a file of that name waits for its deletion, every removal succeeds, nobody asks to stop, the
-- empty name is neither marked nor a file, and the new file can be opened and came in one chunk: the
-- call returns `true`, the file exists with the new content, and is no longer marked. Two turns of
-- waiting are enough.
pub store-replaces :
    (w : Meets) (n : ℕ) (id : TestcaseId) (dir : Text) (first : Bytes) (g : Collector)
    (files : Files)
    → w.fuel ≡ suc (suc n)
    → ((i : ℕ) → w.stop i ≡ false)
    → ((i j : ℕ) → (w.draws i j).removable ≡ true)
    → w.can_open ≡ true
    → contains [] files ≡ false
    → contains [] g.set_of_files_to_delete ≡ false
    → contains (generate_testcase_path_and_filename id dir) files ≡ true
    → is_file_marked_for_deletion (generate_testcase_path_and_filename id dir) g ≡ true
    → (g' : Collector) × (files' : Files) × (store_testcase_file w id dir first true g files
        ≡ returned true (some first) g' files')
      × (contains (generate_testcase_path_and_filename id dir) files' ≡ true)
      × (is_file_marked_for_deletion (generate_testcase_path_and_filename id dir) g' ≡ false)
unfolding store_testcase_file is_file_marked_for_deletion
store-replaces w n id dir first g files fuel s r o e m h k =
    let name = generate_testcase_path_and_filename id dir in
    let (g', files', run, gone, unmarked) =
      clear_loop-ready n w.stop w.draws name g files s r e m h k in
    (
      g',
      insert name files',
      rw (h, k)
          (ap (after_wait w name first true)
              (ap (λ f. clear_loop f w.stop w.draws name g files) fuel ∙ run)
            ∙ written g' files' gone),
      contains-insert_self name files',
      unmarked,
    )
  where
    written :
        (g' : Collector) (files' : Files)
        → contains (generate_testcase_path_and_filename id dir) files' ≡ false
        → after_wait w (generate_testcase_path_and_filename id dir) first true (ready g' files')
          ≡ returned true
              (some first)
              g'
              (insert (generate_testcase_path_and_filename id dir) files')
    written g' files' gone = unfold after_wait write_chunks in ground arith
