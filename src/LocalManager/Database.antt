-- ===== src/LocalManager/Database.antt =====
-- core/LocalManager/LMDatabaseManager: the operations that keep the results of testcases. What is
-- modelled is which statements they send, and what they make of the answers; the database server is
-- an argument, and the log holds the statements that it executed, the latest first.
use fluffi.Base.{
  ℕ, ◌-◌, ◌%◌, Bool, true, false, ◌||◌, Option, none, some, List, [], ◌∷◌, map, if◌then◌else◌, ◌==◌,
  leb, length, Text, codes, text_eq, ℤ, pos, negsuc,
}
use fluffi.Testcase.{TestcaseId}
use fluffi.Evaluator.Blocks.{Block, int_eq}
use fluffi.Transfer.Chunks.{Bytes}

pub data TestCaseType : Type 0 where
  population hang exception_access_violation exception_other no_response inactive_population
        locked :
      TestCaseType

-- A row of covered_blocks: the module's number is cut to an `unsigned char`.
pub record BlockRow : Type 0 where
  pub testcase : ℕ
  pub module_byte : ℕ
  pub offset : ℕ

pub data Statement : Type 0 where
  insert_completed : List TestcaseId → Statement
  add_rating : TestcaseId → ℤ → Statement
  delete_interesting : TestcaseId → Statement
  insert_interesting : TestcaseId → TestcaseId → ℤ → Bytes → TestCaseType → Statement
  replace_crash : TestcaseId → Text → Statement
  insert_blocks : List BlockRow → Statement
  set_type : TestcaseId → TestCaseType → Statement

abbrev pub Log : Type 0
Log = List Statement

-- The server: whether a statement is executed after those of a log, the number of a testcase's row
-- where there is exactly one, and its parent.
pub record Database : Type 0 where
  pub executes : Log → Statement → Bool
  pub row_id : Log → TestcaseId → Option ℕ
  pub parent_row : Log → TestcaseId → Option TestcaseId

abbrev pub max_guid_length : ℕ
max_guid_length = 50

unfoldable pub some_guid_too_long : List TestcaseId → Bool
some_guid_too_long [] = false
some_guid_too_long (id ∷ ids) =
    leb max_guid_length (length id.service_descriptor.guid) || some_guid_too_long ids

unfoldable pub to_byte : ℤ → ℕ
to_byte (pos n) = n % 256
to_byte (negsuc n) = 255 - n % 256

unfoldable pub block_row : ℕ → Block → BlockRow
unfolding to_byte
block_row testcase b = record {
  testcase = testcase;
  module_byte = to_byte b.module_id;
  offset = b.rva;
}

module _ (db : Database) where
  unfoldable pub execute : Statement → Log → Bool × Log
  execute s log = if db.executes log s then (true, s ∷ log) else (false, log)

  unfoldable pub add_entries_to_completed_testcases : List TestcaseId → Log → Bool × Log
  unfolding execute some_guid_too_long
  add_entries_to_completed_testcases ids log =
      if some_guid_too_long ids
      then (false, log)
      else if length ids == 0
      then (true, log)
      else execute (insert_completed ids) log

  unfoldable pub add_delta_to_testcase_rating : TestcaseId → ℤ → Log → Bool × Log
  unfolding execute
  add_delta_to_testcase_rating id delta log =
      if int_eq delta (pos 0) then (true, log) else execute (add_rating id delta) log

  unfoldable pub actual_parent : TestcaseId → TestcaseId → Log → TestcaseId
  actual_parent id parent log =
      if text_eq parent.service_descriptor.guid (codes "special")
      then elim (db.parent_row log id) [ none ↦ parent | some p ↦ p ]
      else parent

  -- The answer to the insertion is only logged: the call succeeds where the deletion did.
  unfoldable pub add_entry_to_interesting_testcases :
      TestcaseId → TestcaseId → ℤ → Bytes → TestCaseType → Log → Bool × Log
  unfolding execute actual_parent
  add_entry_to_interesting_testcases id parent rating bytes type log =
      let (deleted, after) = execute (delete_interesting id) log in
      if deleted
      then (
        true,
        (execute (insert_interesting id (actual_parent id parent log) rating bytes type) after).1,
      )
      else (false, after)

  unfoldable pub add_entry_to_crash_descriptions : TestcaseId → Text → Log → Bool × Log
  unfolding execute
  add_entry_to_crash_descriptions id footprint log = execute (replace_crash id footprint) log

  unfoldable pub add_blocks_to_row : List Block → Log → Option ℕ → Bool × Log
  unfolding execute block_row
  add_blocks_to_row blocks log none = (false, log)
  add_blocks_to_row blocks log (some n) =
      if length blocks == 0
      then (true, log)
      else execute (insert_blocks (map (block_row n) blocks)) log

  unfoldable pub add_blocks_to_covered_blocks : TestcaseId → List Block → Log → Bool × Log
  unfolding add_blocks_to_row
  add_blocks_to_covered_blocks id blocks log = add_blocks_to_row blocks log (db.row_id log id)

  unfoldable pub set_testcase_type : TestcaseId → TestCaseType → Log → Bool × Log
  unfolding execute
  set_testcase_type id type log = execute (set_type id type) log
