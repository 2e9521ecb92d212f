-- ===== src/LocalManager/Weights/Ranking.antt =====
-- The weights rank the agents by the length of their queues.
use fluffi.Base.{
  ℕ, ◌+◌, ◌^◌, ◌≤◌, ◌<◌, ◌≡◌, refl, ap, sym, ◌∙◌, Bool, true, false, Bool-cases, inl, inr, some,
  List, [], ◌∷◌, ◌++◌, map, append-nil, map-append, arith, if◌then◌else◌, Text, codes, pos, stoi,
}
use mathlib.Core.List.{reverse, reverse-cons}
use fluffi.Generator.Cleaner.{setting}
use fluffi.LocalManager.Registration.{
  AgentType, testcase_generator, testcase_runner, testcase_evaluator, global_manager, local_manager,
}
use fluffi.LocalManager.Weights.{
  StatusOfInstance, Calculator, generator_score, evaluator_score, calculate_generator_weight,
  calculate_evaluator_weight, push_status, status_loop, update_status_information,
}

-- Of two generators whose queues have lengths of type `int`, the one with the longer queue weighs
-- more, by the difference of the lengths.
pub generator_weights-add :
    (s t : StatusOfInstance) (v w : Text) (m n : ℕ)
    → setting (codes "TestCasesQueueSize") s.status ≡ some v
    → setting (codes "TestCasesQueueSize") t.status ≡ some w
    → stoi v ≡ some (pos m)
    → stoi w ≡ some (pos (m + n))
    → m + n < 2 ^ 31
    → calculate_generator_weight t ≡ calculate_generator_weight s + n
unfolding calculate_generator_weight generator_score
generator_weights-add s t v w m n a b c d h = rw (a, b, generator_score, c, d) (omega arith)

-- Of two evaluators, the one with the shorter queue does not weigh less, and every weight is
-- from 100 to 1000, where the lengths are not negative.
pub evaluator_weights-order :
    (s t : StatusOfInstance) (v w : Text) (m n : ℕ)
    → setting (codes "TestEvaluationsQueueSize") s.status ≡ some v
    → setting (codes "TestEvaluationsQueueSize") t.status ≡ some w
    → stoi v ≡ some (pos m)
    → stoi w ≡ some (pos (m + n))
    → (calculate_evaluator_weight t ≤ calculate_evaluator_weight s)
      × (100 ≤ calculate_evaluator_weight t)
      × (calculate_evaluator_weight s ≤ 1000)
unfolding calculate_evaluator_weight evaluator_score
evaluator_weights-order s t v w m n a b c d = rw (a, b, evaluator_score, c, d) (ground arith)

abbrev is_generator : AgentType → Bool
is_generator testcase_generator = true
is_generator testcase_evaluator = false
is_generator testcase_runner = false
is_generator global_manager = false
is_generator local_manager = false

abbrev is_evaluator : AgentType → Bool
is_evaluator testcase_generator = false
is_evaluator testcase_evaluator = true
is_evaluator testcase_runner = false
is_evaluator global_manager = false
is_evaluator local_manager = false

-- The agents of a type, in their order.
unfoldable pub of_type : (AgentType → Bool) → List StatusOfInstance → List StatusOfInstance
of_type test [] = []
of_type test (s ∷ ss) = let rest = of_type test ss in if test s.type then s ∷ rest else rest

abbrev pub weighed_generator : StatusOfInstance → StatusOfInstance
weighed_generator s = record s { weight = calculate_generator_weight s }

abbrev pub weighed_evaluator : StatusOfInstance → StatusOfInstance
weighed_evaluator s = record s { weight = calculate_evaluator_weight s }

-- The two vectors are the generators and the evaluators of a list, from its back, with their status,
-- and each with its own weight.
pub record Weighed (ss : List StatusOfInstance) (c : Calculator) : Type 0 where
  pub generators : c.generator_status ≡ map weighed_generator (reverse (of_type is_generator ss))
  pub evaluators : c.evaluator_status ≡ map weighed_evaluator (reverse (of_type is_evaluator ss))

of_type-back :
    (w : StatusOfInstance → StatusOfInstance) (test : AgentType → Bool) (s : StatusOfInstance)
    (ss : List StatusOfInstance)
    → map w (reverse (of_type test (s ∷ ss)))
      ≡ map w (reverse (of_type test ss)) ++ (if test s.type then w s ∷ [] else [])
unfolding of_type
of_type-back w test s ss = elim (Bool-cases (test s.type)) [
  | inl e ↦ rw e (
      ap (map w) (reverse-cons s (of_type test ss))
      ∙ map-append w (reverse (of_type test ss)) (s ∷ []))
  | inr e ↦ rw e (sym (append-nil (map w (reverse (of_type test ss)))))
]

push_status-generators :
    (s : StatusOfInstance) (type : AgentType) (c : Calculator)
    → (push_status s type c).generator_status
      ≡ c.generator_status ++ (if is_generator type then weighed_generator s ∷ [] else [])
unfolding push_status
push_status-generators s testcase_generator c = refl
push_status-generators s testcase_evaluator c = sym (append-nil c.generator_status)
push_status-generators s testcase_runner c = sym (append-nil c.generator_status)
push_status-generators s global_manager c = sym (append-nil c.generator_status)
push_status-generators s local_manager c = sym (append-nil c.generator_status)

push_status-evaluators :
    (s : StatusOfInstance) (type : AgentType) (c : Calculator)
    → (push_status s type c).evaluator_status
      ≡ c.evaluator_status ++ (if is_evaluator type then weighed_evaluator s ∷ [] else [])
unfolding push_status
push_status-evaluators s testcase_generator c = sym (append-nil c.evaluator_status)
push_status-evaluators s testcase_evaluator c = refl
push_status-evaluators s testcase_runner c = sym (append-nil c.evaluator_status)
push_status-evaluators s global_manager c = sym (append-nil c.evaluator_status)
push_status-evaluators s local_manager c = sym (append-nil c.evaluator_status)

status_loop-Weighed : (ss : List StatusOfInstance) → Weighed ss (status_loop ss)
unfolding status_loop of_type
status_loop-Weighed [] = record { generators = refl; evaluators = refl }
status_loop-Weighed (s ∷ ss) =
    let w = status_loop-Weighed ss in
    record {
      generators =
          push_status-generators s s.type (status_loop ss)
          ∙ ap (λ l. l ++ (if is_generator s.type then weighed_generator s ∷ [] else []))
              w.generators
          ∙ sym (of_type-back weighed_generator is_generator s ss);
      evaluators =
          push_status-evaluators s s.type (status_loop ss)
          ∙ ap (λ l. l ++ (if is_evaluator s.type then weighed_evaluator s ∷ [] else []))
              w.evaluators
          ∙ sym (of_type-back weighed_evaluator is_evaluator s ss);
    }

-- After an update the two vectors are exactly the generators and the evaluators that the database
-- reports, from the back of its vector, each with its status and with the weight of that status; what
-- was there before the update is dropped.
pub update_status-Weighed :
    (ss : List StatusOfInstance) (c : Calculator) → Weighed ss (update_status_information ss c)
unfolding update_status_information
update_status-Weighed ss c = status_loop-Weighed ss
