-- ===== src/LocalManager/Evaluation/Logs.antt =====
-- The statements by which completed testcases were written, which no operation takes back.
use fluffi.Base.{
  ℕ, ◌≡◌, Bool, true, false, ◌||◌, Bool-cases, inl, inr, Option, none, some, List, [], ◌∷◌, map,
  ◌==◌, length, arith, ℤ, pos,
}
use fluffi.Testcase.{TestcaseId}
use fluffi.Evaluator.Blocks.{Block, int_eq, block_instance, sorted_set}
use fluffi.Evaluator.Results.{
  ExitType, clean_exit, hang, exception_access_violation, exception_other,
}
use fluffi.Transfer.Chunks.{Bytes}
use fluffi.LocalManager.Database.{
  TestCaseType, population, locked, Statement, insert_completed, add_rating, delete_interesting,
  insert_interesting, replace_crash, insert_blocks, set_type, Log, Database, block_row, execute,
  add_delta_to_testcase_rating, actual_parent, add_entry_to_interesting_testcases,
  add_entry_to_crash_descriptions, add_blocks_to_covered_blocks, add_blocks_to_row,
  set_testcase_type,
}
use fluffi.LocalManager.Evaluation.{
  PutTestEvaluationRequest, id_among, type_of, then_on_success, add_details, add_testcase,
}

-- Whether a testcase was among those of an executed insertion.
unfoldable pub written : TestcaseId → Log → Bool
unfolding id_among
written id [] = false
written id (insert_completed ids ∷ log) = id_among id ids || written id log
written id (add_rating i d ∷ log) = written id log
written id (delete_interesting i ∷ log) = written id log
written id (insert_interesting i p r b t ∷ log) = written id log
written id (replace_crash i f ∷ log) = written id log
written id (insert_blocks rows ∷ log) = written id log
written id (set_type i t ∷ log) = written id log

-- What an operation leaves of a log.
abbrev pub Keeps : TestcaseId → Log → Log → Type 0
Keeps id log log' = written id log ≡ true → written id log' ≡ true

written_cons :
    (id : TestcaseId) (s : Statement) (log : Log)
    → written id log ≡ true
    → written id (s ∷ log) ≡ true
unfolding written
written_cons id (insert_completed ids) log h = ground arith
written_cons id (add_rating i d) log h = h
written_cons id (delete_interesting i) log h = h
written_cons id (insert_interesting i p r b t) log h = h
written_cons id (replace_crash i f) log h = h
written_cons id (insert_blocks rows) log h = h
written_cons id (set_type i t) log h = h

module _ (db : Database) (id : TestcaseId) where
  pub execute-Keeps : (s : Statement) (log : Log) → Keeps id log (execute db s log).1
  unfolding execute
  execute-Keeps s log h = elim (Bool-cases (db.executes log s)) [
    | inl e ↦ rw e (written_cons id s log h)
    | inr e ↦ rw e h
  ]

  pub rating-Keeps :
      (i : TestcaseId) (d : ℤ) (log : Log)
      → Keeps id log (add_delta_to_testcase_rating db i d log).1
  unfolding add_delta_to_testcase_rating
  rating-Keeps i d log h = elim (Bool-cases (int_eq d (pos 0))) [
    | inl e ↦ rw e h
    | inr e ↦ rw e (execute-Keeps (add_rating i d) log h)
  ]

  interesting-Keeps :
      (i parent : TestcaseId) (rating : ℤ) (bytes : Bytes) (type : TestCaseType) (log : Log)
      → Keeps id log (add_entry_to_interesting_testcases db i parent rating bytes type log).1
  unfolding add_entry_to_interesting_testcases
  interesting-Keeps i parent rating bytes type log h =
      elim (Bool-cases (execute db (delete_interesting i) log).0) [
        | inl e ↦ rw e (
            execute-Keeps (insert_interesting i (actual_parent db i parent log) rating bytes type)
              (execute db (delete_interesting i) log).1
              (execute-Keeps (delete_interesting i) log h))
        | inr e ↦ rw e (execute-Keeps (delete_interesting i) log h)
      ]

  row-Keeps :
      (blocks : List Block) (log : Log) (row : Option ℕ)
      → Keeps id log (add_blocks_to_row db blocks log row).1
  unfolding add_blocks_to_row
  row-Keeps blocks log none h = h
  row-Keeps blocks log (some n) h = elim (Bool-cases (length blocks == 0)) [
    | inl d ↦ rw d h
    | inr d ↦ rw d (execute-Keeps (insert_blocks (map (block_row n) blocks)) log h)
  ]

  then-Keeps :
      (log : Log) (r : Bool × Log) (next : Log → Bool × Log)
      → Keeps id log (r).1
      → ((l : Log) → Keeps id l (next l).1)
      → Keeps id log (then_on_success r next).1
  unfolding then_on_success
  then-Keeps log (true, l) next first rest h = rest l (first h)
  then-Keeps log (false, l) next first rest h = first h

  details-Keeps :
      (e : ExitType) (q : PutTestEvaluationRequest) (log : Log)
      → Keeps id log (add_details db e q log).1
  unfolding add_details add_entry_to_crash_descriptions add_blocks_to_covered_blocks
      set_testcase_type
  details-Keeps clean_exit q log =
      then-Keeps log (add_blocks_to_covered_blocks db q.id (sorted_set q.result.blocks []) log)
        (set_testcase_type db q.id population)
        (row-Keeps (sorted_set q.result.blocks []) log (db.row_id log q.id))
        (λ l. execute-Keeps (set_type q.id population) l)
  details-Keeps hang q log = λ h. h
  details-Keeps exception_access_violation q log =
      execute-Keeps (replace_crash q.id q.result.crash_footprint) log
  details-Keeps exception_other q log =
      execute-Keeps (replace_crash q.id q.result.crash_footprint) log

  pub testcase-Keeps :
      (e : ExitType) (q : PutTestEvaluationRequest) (bytes : Bytes) (log : Log)
      → Keeps id log (add_testcase db e q bytes log).1
  unfolding add_testcase
  testcase-Keeps clean_exit q bytes log =
      then-Keeps log _ (add_details db clean_exit q)
        (interesting-Keeps q.id q.parent_id (pos 10000) bytes locked log)
        (details-Keeps clean_exit q)
  testcase-Keeps hang q bytes log =
      then-Keeps log _ (add_details db hang q)
        (interesting-Keeps q.id q.parent_id (pos 0) bytes (type_of hang) log) (details-Keeps hang q)
  testcase-Keeps exception_access_violation q bytes log =
      then-Keeps log _ (add_details db exception_access_violation q)
        (interesting-Keeps q.id q.parent_id (pos 0) bytes (type_of exception_access_violation) log)
        (details-Keeps exception_access_violation q)
  testcase-Keeps exception_other q bytes log =
      then-Keeps log _ (add_details db exception_other q)
        (interesting-Keeps q.id q.parent_id (pos 0) bytes (type_of exception_other) log)
        (details-Keeps exception_other q)
