-- ===== src/Runner/Main/Turns.antt =====
-- What a turn of a runner's loop comes to.
use fluffi.Base.{
  ℕ, ◌≡◌, ◌⊎◌, inl, inr, refl, true, false, Bool-cases, Option, none, some, [], Text, text_eq,
  text_instance,
}
use fluffi.Testcase.{ServiceDescriptor}
use fluffi.Collector.{Collector, Files}
use fluffi.Transfer.Storing.{Outcome, lacks_fuel, exited, returned, store_testcase_file}
use fluffi.Transfer.Chunks.{Bytes}
use fluffi.Runner.Partners.{Partner, host, nobody, process_exit, get_next_partner}
use fluffi.Runner.Main.{
  GetTestcaseResponse, Runner, World, no_partner, no_testcase, internal, push_failed, pushed,
  TurnResult, out_of_fuel, ends_process, turned, after_storing, get_testcase, with_evaluator,
  with_generator, runner_turn,
}
use fluffi.Runner.Main.Accounting.{Accounted, process-Accounted}

module _ (chunk_size : ℕ) (me : ServiceDescriptor) (dir : Text) (w : World) where
  -- No testcase was run: nothing is pushed, and where no partner is known nothing changes.
  abbrev pub Skipped : Runner → Files → TurnResult → Type 0
  Skipped r files out_of_fuel = Unit {0}
  Skipped r files ends_process = Unit {0}
  Skipped r files (turned no_partner a b r' files') = (r' ≡ r) × (files' ≡ files)
  Skipped r files (turned no_testcase a b r' files') =
      r'.number_of_processed_testcases ≡ r.number_of_processed_testcases
  Skipped r files (turned internal a b r' files') = ⊥
  Skipped r files (turned (push_failed e push) a b r' files') = ⊥
  Skipped r files (turned (pushed e push) a b r' files') = ⊥

  -- A testcase that a drawn generator gave was stored, and it is accounted for.
  abbrev pub Ran : Runner → Files → TurnResult → Type 0
  Ran r files res =
      (generator : Text) × (evaluator : Text) × (t : GetTestcaseResponse) × (bytes : Option Bytes)
      × (g : Collector) × (files' : Files) × (get_next_partner w.draw_generator w.generators
          ≡ host generator)
      × (get_next_partner w.draw_evaluator w.evaluators ≡ host evaluator)
      × (w.generator_answer generator ≡ some t)
      × (store_testcase_file w.storing t.id dir t.testcase_first_chunk t.is_last_chunk r.collector
            files
          ≡ returned true bytes g files')
      × Accounted chunk_size me dir w evaluator t r res

  after_storing-Ran :
      (generator evaluator : Text) (t : GetTestcaseResponse) (r : Runner) (files : Files)
      (o : Outcome)
      → get_next_partner w.draw_generator w.generators ≡ host generator
      → get_next_partner w.draw_evaluator w.evaluators ≡ host evaluator
      → w.generator_answer generator ≡ some t
      → store_testcase_file w.storing t.id dir t.testcase_first_chunk t.is_last_chunk r.collector
          files
        ≡ o
      → Skipped r files (after_storing chunk_size me dir w evaluator t r o)
        ⊎ Ran r files (after_storing chunk_size me dir w evaluator t r o)
  unfolding after_storing
  after_storing-Ran generator evaluator t r files lacks_fuel a b c d = inl tt
  after_storing-Ran generator evaluator t r files exited a b c d = inl tt
  after_storing-Ran generator evaluator t r files (returned false bytes g files') a b c d = inl refl
  after_storing-Ran generator evaluator t r files (returned true bytes g files') a b c d = inr (
    generator,
    evaluator,
    t,
    bytes,
    g,
    files',
    a,
    b,
    c,
    d,
    process-Accounted chunk_size me dir w evaluator t (record r { collector = g }) files',
  )

  get_testcase-Ran :
      (generator evaluator : Text) (answer : Option GetTestcaseResponse) (r : Runner)
      (files : Files)
      → get_next_partner w.draw_generator w.generators ≡ host generator
      → get_next_partner w.draw_evaluator w.evaluators ≡ host evaluator
      → w.generator_answer generator ≡ answer
      → Skipped r files (get_testcase chunk_size me dir w evaluator answer r files)
        ⊎ Ran r files (get_testcase chunk_size me dir w evaluator answer r files)
  unfolding get_testcase
  get_testcase-Ran generator evaluator none r files a b c = inl refl
  get_testcase-Ran generator evaluator (some t) r files a b c = elim (Bool-cases t.success) [
    | inl e ↦ rw e (after_storing-Ran generator evaluator t r files _ a b c refl)
    | inr e ↦ rw e (inl refl)
  ]

  with_evaluator-Ran :
      (generator : Text) (p : Partner) (r : Runner) (files : Files)
      → get_next_partner w.draw_generator w.generators ≡ host generator
      → get_next_partner w.draw_evaluator w.evaluators ≡ p
      → Skipped r files (with_evaluator chunk_size me dir w generator p r files)
        ⊎ Ran r files (with_evaluator chunk_size me dir w generator p r files)
  unfolding with_evaluator
  with_evaluator-Ran generator nobody r files a b = inl (refl, refl)
  with_evaluator-Ran generator process_exit r files a b = inl tt
  with_evaluator-Ran generator (host evaluator) r files a b =
      elim (Bool-cases (text_eq evaluator [])) [
        | inl e ↦ rw e (inl (refl, refl))
        | inr e ↦
            rw e
              (get_testcase-Ran generator evaluator (w.generator_answer generator) r files a b refl)
      ]

  with_generator-Ran :
      (p : Partner) (r : Runner) (files : Files)
      → get_next_partner w.draw_generator w.generators ≡ p
      → Skipped r files (with_generator chunk_size me dir w p r files)
        ⊎ Ran r files (with_generator chunk_size me dir w p r files)
  unfolding with_generator
  with_generator-Ran nobody r files a = inl (refl, refl)
  with_generator-Ran process_exit r files a = inl tt
  with_generator-Ran (host generator) r files a = elim (Bool-cases (text_eq generator [])) [
    | inl e ↦ rw e (inl (refl, refl))
    | inr e ↦ rw e (
        with_evaluator-Ran generator (get_next_partner w.draw_evaluator w.evaluators) r files a
          refl)
  ]

  -- A turn of the runner's loop either runs no testcase and pushes nothing, or runs one that a drawn
  -- generator gave and that was stored. Then the count goes up by one, and either the run's result
  -- goes to the drawn evaluator, which takes it, and was no internal error; or the file is marked for
  -- deletion, after an internal error or a push without success. The file is marked, too, where
  -- the push held its last chunk.
  pub runner_turn-Ran :
      (r : Runner) (files : Files)
      → Skipped r files (runner_turn chunk_size me dir w r files)
        ⊎ Ran r files (runner_turn chunk_size me dir w r files)
  unfolding runner_turn
  runner_turn-Ran r files =
      with_generator-Ran (get_next_partner w.draw_generator w.generators) r files refl
