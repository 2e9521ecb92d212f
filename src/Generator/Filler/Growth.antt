-- ===== src/Generator/Filler/Growth.antt =====
-- How far the filler lets the queue and the batches grow.
use fluffi.Base.{
  ℕ, ◌+◌, ◌≤◌, ◌≡◌, inl, inr, refl, Bool, true, false, Option, none, some, List, [], ◌∷◌, arith,
  ltb, if◌then◌else◌, Bool-cases, length, length-append, Text, codes, text_instance,
}
use fluffi.Testcase.{
  TestcaseId, TestcaseDescriptor, new_descriptor, generate_testcase_path_and_filename,
}
use fluffi.Collector.{Files}
use fluffi.Generator.Manager.{
  Manager, push_new_generated_testcase, push_new_generated_testcases,
  get_pending_testcase_queue_size,
}
use fluffi.Generator.Cleaner.{Settings, setting}
use fluffi.Generator.Filler.{
  Filler, Mutator, Parent, Turn, choose_mutator, install, choose, try_get_config_from_lm,
  get_new_parent, adapt, drop_parent, generate, produce, with_parent, configured, worker_turn,
  special_id, no_parent,
}

-- The batch size stays between one and its maximum, and the queue is at most one batch and one
-- unmutated parent above the desired level.
pub record InRange (f : Filler) (m : Manager) : Type 0 where
  pub one_at_least : 1 ≤ f.bulk_generation_size
  pub at_most : f.bulk_generation_size ≤ f.max_bulk_generation_size
  pub queue :
      length m.pending_testcase_queue ≤ f.desired_queue_fill_level + f.max_bulk_generation_size + 1

-- No mutator makes more children than it is asked for.
abbrev pub Obeys : (ℕ → TestcaseId → Option (List TestcaseDescriptor)) → Type 0
Obeys mutate =
    (n : ℕ) (i : TestcaseId) (ts : List TestcaseDescriptor) → mutate n i ≡ some ts → length ts ≤ n

adapt-InRange :
    (r : Option (List TestcaseDescriptor)) (f : Filler) (m : Manager)
    → 1 ≤ f.bulk_generation_size
    → f.bulk_generation_size ≤ f.max_bulk_generation_size
    → ((ts : List TestcaseDescriptor) → r ≡ some ts → length ts ≤ f.bulk_generation_size)
    → length m.pending_testcase_queue ≤ f.desired_queue_fill_level + 1
    → InRange (adapt r f m).0 (adapt r f m).1
unfolding adapt push_new_generated_testcases
adapt-InRange none f m a b h q = ground arith
adapt-InRange (some ts) f m a b h q =
    ground (arith, h ts refl, length-append m.pending_testcase_queue ts)

drop_parent-InRange :
    (r : Bool) (p : Text) (f : Filler) (m : Manager) → InRange f m → InRange f (drop_parent r p f m)
unfolding drop_parent
drop_parent-InRange r p f m v = ground arith

generate-InRange :
    (t : Turn) (i : TestcaseId) (f : Filler) (m : Manager)
    → Obeys t.mutate
    → 1 ≤ f.bulk_generation_size
    → f.bulk_generation_size ≤ f.max_bulk_generation_size
    → length m.pending_testcase_queue ≤ f.desired_queue_fill_level + 1
    → InRange (generate t i f m).0 (generate t i f m).1
unfolding generate
generate-InRange t i f m o a b q =
    drop_parent-InRange t.parent_removed _ _ _
      (adapt-InRange (t.mutate f.bulk_generation_size i) f m a b (o f.bulk_generation_size i) q)

get_new_parent-length :
    (p : Option Parent) (f : Filler) (m : Manager) (files : Files) (i : TestcaseId) (m' : Manager)
    (files' : Files)
    → get_new_parent p f (m, files) ≡ some (i, m', files')
    → length m'.pending_testcase_queue ≤ length m.pending_testcase_queue + 1
unfolding get_new_parent push_new_generated_testcase
get_new_parent-length none f m files i m' files' e = cc
get_new_parent-length (some p) f m files i m' files' e = ground (
  arith,
  length-append m.pending_testcase_queue (
      new_descriptor p.id special_id (generate_testcase_path_and_filename p.id f.testcase_directory)
        true
      ∷ []),
)

with_parent-InRange :
    (t : Turn) (f : Filler) (m : Manager) (files : Files)
    (r : Option (TestcaseId × Manager × Files))
    → Obeys t.mutate
    → InRange f m
    → ((i : TestcaseId) (m' : Manager) (files' : Files)
        → r ≡ some (i, m', files')
        → length m'.pending_testcase_queue ≤ f.desired_queue_fill_level + 1)
    → InRange (with_parent t f m files r).0 (with_parent t f m files r).1
unfolding with_parent
with_parent-InRange t f m files none o v q = v
with_parent-InRange t f m files (some (i, m', files')) o v q =
    generate-InRange t i f m' o v.one_at_least v.at_most (q i m' files' refl)

produce-InRange :
    (t : Turn) (f : Filler) (m : Manager) (files : Files)
    → Obeys t.mutate
    → InRange f m
    → InRange (produce t f m files).0 (produce t f m files).1
unfolding produce get_pending_testcase_queue_size
produce-InRange t f m files o v =
    elim (Bool-cases (ltb f.desired_queue_fill_level (length m.pending_testcase_queue))) [
      | inl e ↦ rw e v
      | inr e ↦ rw e (mutate_or_fetch f.mutator_needs_parents (ground arith))
    ]
  where
    mutate_or_fetch :
        (b : Bool)
        → length m.pending_testcase_queue ≤ f.desired_queue_fill_level
        → InRange
            (if b
              then with_parent t f m files (get_new_parent t.parent f (m, files))
              else with_parent t f m files (some (no_parent, m, files))).0
            (if b
              then with_parent t f m files (get_new_parent t.parent f (m, files))
              else with_parent t f m files (some (no_parent, m, files))).1
    mutate_or_fetch true q =
        with_parent-InRange t f m files _ o v
          (λ i m' files' e. omega (arith, get_new_parent-length t.parent f m files i m' files' e))
    mutate_or_fetch false q = with_parent-InRange t f m files _ o v (λ i m' files' e. ground arith)

install-sizes :
    (functionable : Mutator → Bool) (c : Option (Mutator × Bool)) (f f' : Filler) (got : Bool)
    → install functionable c f ≡ some (got, f')
    → (f'.bulk_generation_size ≡ f.bulk_generation_size)
      × (f'.max_bulk_generation_size ≡ f.max_bulk_generation_size)
      × (f'.desired_queue_fill_level ≡ f.desired_queue_fill_level)
unfolding install
install-sizes functionable none f f' got e = cc
install-sizes functionable (some (m, parents)) f f' got e = ground arith

choose-sizes :
    (functionable : Mutator → Bool) (s : Settings) (o : Option Text) (f f' : Filler) (got : Bool)
    → choose functionable s o f ≡ some (got, f')
    → (f'.bulk_generation_size ≡ f.bulk_generation_size)
      × (f'.max_bulk_generation_size ≡ f.max_bulk_generation_size)
      × (f'.desired_queue_fill_level ≡ f.desired_queue_fill_level)
unfolding choose
choose-sizes functionable s none f f' got e = ground arith
choose-sizes functionable s (some x) f f' got e =
    ground (arith, install-sizes functionable (choose_mutator x s) f f' got)

-- A new configuration changes neither the sizes nor the desired level.
try_get_config-sizes :
    (functionable : Mutator → Bool) (r : Option Settings) (f f' : Filler) (got : Bool)
    → try_get_config_from_lm functionable r f ≡ some (got, f')
    → (f'.bulk_generation_size ≡ f.bulk_generation_size)
      × (f'.max_bulk_generation_size ≡ f.max_bulk_generation_size)
      × (f'.desired_queue_fill_level ≡ f.desired_queue_fill_level)
unfolding try_get_config_from_lm
try_get_config-sizes functionable none f f' got e = ground arith
try_get_config-sizes functionable (some s) f f' got e =
    choose-sizes functionable s (setting (codes "chosenSubtype") s) f f' got e

configured-InRange :
    (t : Turn) (m m' : Manager) (files files' : Files) (r : Option (Bool × Filler)) (f' : Filler)
    → Obeys t.mutate
    → ((got : Bool) (g : Filler) → r ≡ some (got, g) → InRange g m)
    → configured t m files r ≡ some (f', m', files')
    → InRange f' m'
unfolding configured
configured-InRange t m m' files files' none f' o v e = cc
configured-InRange t m m' files files' (some (false, g)) f' o v e =
    let v' = v false g refl in ground arith
configured-InRange t m m' files files' (some (true, g)) f' o v e =
    let v' = v true g refl in
    let w = produce-InRange t (record g { got_config_from_lm = true }) m files o (ground arith) in
    ground arith

-- A turn of the filler's loop keeps the batch size between one and its maximum, and the pending queue
-- at most one batch and one unmutated parent above the desired fill level, provided that no mutator
-- makes more children than it is asked for.
pub worker_turn-InRange :
    (t : Turn) (f f' : Filler) (m m' : Manager) (files files' : Files)
    → Obeys t.mutate
    → InRange f m
    → worker_turn t f m files ≡ some (f', m', files')
    → InRange f' m'
unfolding worker_turn
worker_turn-InRange t f f' m m' files files' o v e = elim (Bool-cases f.got_config_from_lm) [
  | inl g ↦ let w = produce-InRange t f m files o v in ground arith
  | inr g ↦
      configured-InRange t m m' files files' _ f' o
        (λ got g s.
          let z = try_get_config-sizes t.functionable t.configuration f g got s in ground arith)
        (ground arith)
]
