-- ===== src/Tests/Files.antt =====
-- Testcase files, their transfer, and texts.
use fluffi.Base.{
  ◌≡◌, ◌↔◌, refl, true, false, none, some, [], ◌∷◌, contains, text_instance, arith, codes, text_eq,
}
use fluffi.Testcase.{TestcaseId, id_eq, generate_testcase_path_and_filename, to_string}
use fluffi.Testcase.Filename.{path-injective}
use fluffi.Collector.{Collector, Files, is_file_marked_for_deletion}
use fluffi.Transfer.Chunks.{Bytes, load_testcase_chunk}
use fluffi.Transfer.Whole.{receive, serve, receive_whole}
use fluffi.Transfer.Storing.{Meets, returned, store_testcase_file}
use fluffi.Transfer.Storing.Overwriting.{store-replaces}
use fluffi.Strings.{split_string, split_loop, replace_loop}
use fluffi.Strings.Splitting.{Splits, join, split_string-Splits, replace-joins}
use fluffi.Tests.Data.{moved_generator, id_of, marked, disk, removable}

abbrev moved : TestcaseId
moved = record { service_descriptor = moved_generator; local_id = 12 }

path-injective_example :
    (generate_testcase_path_and_filename (id_of 12) (codes "t")
      ≡ generate_testcase_path_and_filename moved (codes "t"))
    ↔ (id_eq (id_of 12) moved ≡ true)
path-injective_example = path-injective (id_of 12) moved (codes "t")

abbrev content : Bytes
content = 1 ∷ (2 ∷ (3 ∷ (4 ∷ [])))

-- Chunks of two bytes; the length is a multiple.
receive_whole_example :
    receive 2 (serve 2 false content) (load_testcase_chunk 2 false 0 (some content))
    ≡ some (true, content)
receive_whole_example = receive_whole 2 false content 2 (omega arith)

abbrev meets : Meets
meets = record {
  fuel = 2;
  stop = λ i. false;
  draws = λ i. removable;
  can_open = true;
  ask = λ i. none;
}

store-replaces_example :
    (g' : Collector) × (files' : Files) × (store_testcase_file meets
        (id_of 7)
        (codes "t")
        content
        true
        marked
        disk
      ≡ returned true (some content) g' files')
    × (contains (generate_testcase_path_and_filename (id_of 7) (codes "t")) files' ≡ true)
    × (is_file_marked_for_deletion (generate_testcase_path_and_filename (id_of 7) (codes "t")) g'
        ≡ false)
unfolding contains text_eq generate_testcase_path_and_filename to_string is_file_marked_for_deletion
store-replaces_example =
    store-replaces meets 0 (id_of 7) (codes "t") content marked disk refl (λ i. refl) (λ i j. refl)
      refl refl refl refl refl

split_string-Splits_example :
    Splits (codes "|") (codes "A=50|B=50") (split_string (codes "A=50|B=50") (codes "|"))
split_string-Splits_example = split_string-Splits (codes "A=50|B=50") 124 []

replace-joins_example :
    replace_loop 7 (codes "a//b") (codes "/") (codes "//")
    ≡ some (join (codes "//") (split_loop 7 (codes "a//b") (codes "/")))
replace-joins_example = replace-joins 7 (codes "a//b") 47 [] (codes "//") (omega arith)
