-- ===== src/LocalManager/Evaluation/Unlocking.antt =====
-- What a successful response to a verdict says of the testcase's rows.
use fluffi.Base.{
  ℕ, ◌≡◌, refl, Bool, true, false, subst, sym, Bool-cases, inl, inr, Option, none, some, List, [],
  ◌∷◌, map, if◌then◌else◌, length, ◌==◌, Text, arith, ap, ◌∙◌,
}
use fluffi.Testcase.{generate_testcase_path_and_filename}
use fluffi.Collector.{mark_file_for_delete}
use fluffi.Evaluator.Blocks.{Block, block_instance, sorted_set}
use fluffi.Evaluator.Results.{ExitType, clean_exit}
use fluffi.Transfer.Chunks.{Bytes}
use fluffi.Transfer.Storing.{Outcome, lacks_fuel, exited, returned}
use fluffi.LocalManager.Database.{
  population, Statement, insert_blocks, set_type, Log, Database, block_row, execute,
  add_blocks_to_row, add_blocks_to_covered_blocks, set_testcase_type,
}
use fluffi.LocalManager.Evaluation.{
  Verdict, keep, PutTestEvaluationRequest, Handler, Situation, Response, responded, out_of_fuel,
  process_exit, then_on_success, mark_testcase_as_completed, add_details, add_testcase,
  respond_with, keep_stored, evaluate, after_rating, after_completion, handle_put_test_evaluation,
}

module _ (db : Database) where
  -- The log where a testcase was unlocked behind its blocks, which belong to the row found for it.
  abbrev pub Unlocked : PutTestEvaluationRequest → Log → Type 0
  Unlocked q log =
      (n : ℕ) × (before : Log) × (db.row_id before q.id ≡ some n)
      × (log
          ≡ set_type q.id population
            ∷ (if length (sorted_set q.result.blocks []) == 0
                then before
                else insert_blocks (map (block_row n) (sorted_set q.result.blocks [])) ∷ before))

  execute_true :
      (s : Statement) (log after : Log) → execute db s log ≡ (true, after) → after ≡ s ∷ log
  unfolding execute
  execute_true s log after e = ground arith

  then_true :
      (r : Bool × Log) (next : Log → Bool × Log) (after : Log)
      → then_on_success r next ≡ (true, after)
      → (middle : Log) × (r ≡ (true, middle)) × (next middle ≡ (true, after))
  unfolding then_on_success
  then_true (true, l) next after e = (l, refl, e)
  then_true (false, l) next after e = absurd (cc)

  row_true :
      (blocks : List Block) (log after : Log) (row : Option ℕ)
      → add_blocks_to_row db blocks log row ≡ (true, after)
      → (n : ℕ) × (row ≡ some n)
        × (after
            ≡ (if length blocks == 0 then log else insert_blocks (map (block_row n) blocks) ∷ log))
  unfolding add_blocks_to_row
  row_true blocks log after none e = absurd (cc)
  row_true blocks log after (some n) e = (
    n,
    refl,
    elim (Bool-cases (length blocks == 0)) [
      | inl d ↦ let x : ◌≡◌ {A = Bool × Log} (true, log) (true, after) = rw d at e in rw d (cc)
      | inr d ↦
          let x : execute db (insert_blocks (map (block_row n) blocks)) log ≡ (true, after) =
            rw d at e in
          rw d (execute_true (insert_blocks (map (block_row n) blocks)) log after x)
    ],
  )

  clean-Unlocked :
      (q : PutTestEvaluationRequest) (bytes : Bytes) (log after : Log)
      → add_testcase db clean_exit q bytes log ≡ (true, after)
      → Unlocked q after
  unfolding add_testcase add_details set_testcase_type add_blocks_to_covered_blocks
  clean-Unlocked q bytes log after e =
      let (l1, inserted, detailed) = then_true _ (add_details db clean_exit q) after e in
      let (l2, blocked, typed) =
        then_true _ (set_testcase_type db q.id population) after detailed in
      let (n, row, wrote) =
        row_true (sorted_set q.result.blocks []) l1 l2 (db.row_id l1 q.id) blocked in
      (
        n,
        l1,
        row,
        execute_true (set_type q.id population) l2 after typed
            ∙ ap (◌∷◌ (set_type q.id population)) wrote,
      )

  -- The response of a verdict that says success leaves the testcase unlocked.
  abbrev UnlockedBy : PutTestEvaluationRequest → Response → Type 0
  UnlockedBy q out_of_fuel = Unit {0}
  UnlockedBy q process_exit = Unit {0}
  UnlockedBy q (responded false h) = Unit {0}
  UnlockedBy q (responded true h) = Unlocked q h.log

  respond-UnlockedBy :
      (q : PutTestEvaluationRequest) (bytes : Bytes) (h : Handler) (r : Bool × Log)
      → ((after : Log) → r ≡ (true, after) → Unlocked q after)
      → UnlockedBy q (respond_with h r)
  unfolding respond_with
  respond-UnlockedBy q bytes h (true, after) u = u after refl
  respond-UnlockedBy q bytes h (false, after) u = tt

  module _ (force : ℕ) (dir : Text) (w : Situation) (q : PutTestEvaluationRequest)
      (kept : q.eval ≡ keep) (ran : q.result.exit_type ≡ clean_exit) where
    stored-UnlockedBy :
        (h : Handler) (o : Outcome) → UnlockedBy q (keep_stored db force dir w q h o)
    unfolding keep_stored
    stored-UnlockedBy h lacks_fuel = tt
    stored-UnlockedBy h exited = tt
    stored-UnlockedBy h (returned false bytes g files) = tt
    stored-UnlockedBy h (returned true bytes g files) =
        let read : Bytes = w.bytes_of files (generate_testcase_path_and_filename q.id dir) in
        respond-UnlockedBy q read
          (record h {
            collector = mark_file_for_delete (generate_testcase_path_and_filename q.id dir) g;
          })
          (add_testcase db q.result.exit_type q read h.log)
          (λ (after : Log) (e : add_testcase db q.result.exit_type q read h.log ≡ (true, after)).
            clean-Unlocked q read h.log after
              (subst (λ (t : ExitType). add_testcase db t q read h.log ≡ (true, after)) ran e))

    evaluate-UnlockedBy : (h : Handler) → UnlockedBy q (evaluate db force dir q.eval w q h)
    unfolding evaluate
    evaluate-UnlockedBy h =
        subst (λ (v : Verdict). UnlockedBy q (evaluate db force dir v w q h)) (sym kept)
          (stored-UnlockedBy h _)

    rated-UnlockedBy :
        (h : Handler) (r : Bool × Log) → UnlockedBy q (after_rating db force dir w q h r)
    unfolding after_rating
    rated-UnlockedBy h (true, log) = evaluate-UnlockedBy (record h { log = log })
    rated-UnlockedBy h (false, log) = tt

    completed-UnlockedBy : (r : Bool × Handler) → UnlockedBy q (after_completion db force dir w q r)
    unfolding after_completion
    completed-UnlockedBy (true, h) = rated-UnlockedBy h _
    completed-UnlockedBy (false, h) = tt

    -- Where a testcase that ran to its end is to be kept and the response says success, the last
    -- statement unlocks it, and its blocks, if there are any, went in just before, for the one row
    -- that the database had for it.
    pub handle-Unlocked :
        (h h' : Handler)
        → handle_put_test_evaluation db force dir w q h ≡ responded true h'
        → Unlocked q h'.log
    unfolding handle_put_test_evaluation
    handle-Unlocked h h' e =
        subst (UnlockedBy q) e
          (completed-UnlockedBy (mark_testcase_as_completed db force dir w.now q.id h))
