-- ===== src/Collector/Round.antt =====
-- What a round of the collector does to the marks and to the files.
use fluffi.Base.{
  ℕ, zero, suc, ◌*◌, ◌≡◌, refl, inl, inr, Bool, true, false, Option, none, some, [], arith,
  if◌then◌else◌, Bool-cases, length, Text, text_eq, text_eq_iff, text_eq_self, text_instance,
  contains, without, contains-insert, contains-without,
}
use fluffi.Collector.{
  Files, Collector, Draw, mark_file_for_delete, Iteration, process_exit, break, continue, attempt,
  iterate, collect_loop, collect_garbage,
}
use fluffi.Collector.Drawing.{Picked, get_random_cases}

-- A mark is lost only together with its file, only marked files are deleted, and no file is marked
-- or made.
pub record Kept (g : Collector) (files : Files) (g' : Collector) (files' : Files) : Type 0 where
  pub marks :
      (b : Text)
      → contains b g.set_of_files_to_delete ≡ true
      → contains b files' ≡ true
      → contains b g'.set_of_files_to_delete ≡ true
  pub spared :
      (b : Text)
      → contains b files ≡ true
      → contains b g.set_of_files_to_delete ≡ false
      → contains b files' ≡ true
  pub no_new_mark :
      (b : Text)
      → contains b g'.set_of_files_to_delete ≡ true
      → contains b g.set_of_files_to_delete ≡ true
  pub no_new_file : (b : Text) → contains b files' ≡ true → contains b files ≡ true

abbrev IterationKept : Collector → Files → Iteration → Type 0
IterationKept g files process_exit = ⊥
IterationKept g files (break g' files') = Kept g files g' files'
IterationKept g files (continue g' files') = Kept g files g' files'

attempt-Kept :
    (g : Collector) (f : Text) (removable : Bool) (g' : Collector) (files : Files)
    → contains [] files ≡ false
    → Picked g f g'
    → IterationKept g files (attempt f removable g' files)
unfolding attempt
attempt-Kept g f removable g' files h p = elim (Bool-cases (text_eq f [])) [
  | inl e ↦ rw e (record {
    marks = λ b m ex. ground (arith, p.others b, text_eq_iff f b, text_eq_iff f []);
    spared = λ b ex m. ex;
    no_new_mark = λ b m. ground (arith, p.others b);
    no_new_file = λ b ex. ex;
  })
  | inr e ↦ rw e (elim (Bool-cases (contains f files)) [
    | inr gone ↦ rw gone (record {
      marks = λ b m ex. ground (arith, p.others b, text_eq_iff f b);
      spared = λ b ex m. ex;
      no_new_mark = λ b m. ground (arith, p.others b);
      no_new_file = λ b ex. ex;
    })
    | inl there ↦ rw there (removing removable)
  ])
]
  where
    removing :
        (r : Bool)
        → IterationKept g files (
            if r then continue g' (without f files) else continue (mark_file_for_delete f g') files)
    removing true = record {
      marks = λ b m ex. ground (arith, p.others b, contains-without f b files);
      spared = λ b ex m. ground (arith, p.others b, contains-without f b files);
      no_new_mark = λ b m. ground (arith, p.others b);
      no_new_file = λ b ex. ground (arith, contains-without f b files);
    }
    removing false = record {
      marks = λ b m ex. ground (arith, p.others b, contains-insert f b g'.set_of_files_to_delete);
      spared = λ b ex m. ex;
      no_new_mark =
          λ b m. ground (arith, p.others b, contains-insert f b g'.set_of_files_to_delete);
      no_new_file = λ b ex. ex;
    }

Kept-same : (g : Collector) (files : Files) → Kept g files g files
Kept-same g files = record {
  marks = λ b m ex. m;
  spared = λ b ex m. ex;
  no_new_mark = λ b m. m;
  no_new_file = λ b ex. ex;
}

Kept-trans :
    {g h k : Collector} {fs gs hs : Files} → Kept g fs h gs → Kept h gs k hs → Kept g fs k hs
Kept-trans {g} {h} {k} {fs} {gs} {hs} p q = record {
  marks = λ b m ex. q.marks b (p.marks b m (q.no_new_file b ex)) ex;
  spared = λ b ex m. q.spared b (p.spared b ex m) (ground (arith, p.no_new_mark b));
  no_new_mark = λ b m. p.no_new_mark b (q.no_new_mark b m);
  no_new_file = λ b ex. p.no_new_file b (q.no_new_file b ex);
}

pub attempt_nothing :
    (r : Bool) (g : Collector) (files : Files) → attempt [] r g files ≡ break g files
unfolding attempt
attempt_nothing r g files = rw (text_eq_self [])

iterate-Kept :
    (d : Draw) (g : Collector) (files : Files)
    → contains [] files ≡ false
    → IterationKept g files (iterate d g files)
unfolding iterate
iterate-Kept d g files h = elim (get_random_cases d.random g) [
  | inl (e, draw) ↦ rw (draw, iterate, attempt_nothing d.removable g files) (Kept-same g files)
  | inr (f, g', draw, p) ↦ rw (draw, iterate) (attempt-Kept g f d.removable g' files h p)
]

-- The loop ends, without an exit of the process, and keeps what a round has to keep.
abbrev LoopKept : Collector → Files → Option (Collector × Files) → Type 0
LoopKept g files none = ⊥
LoopKept g files (some (g', files')) = Kept g files g' files'

no_empty_name :
    {g g' : Collector} {fs gs : Files}
    → Kept g fs g' gs
    → contains [] fs ≡ false
    → contains [] gs ≡ false
no_empty_name k h = ground (arith, k.no_new_file [])

collect_loop-Kept :
    (n : ℕ) (draws : ℕ → Draw) (g : Collector) (files : Files)
    → contains [] files ≡ false
    → LoopKept g files (collect_loop n draws g files)
unfolding collect_loop
collect_loop-Kept zero draws g files h = Kept-same g files
collect_loop-Kept (suc n) draws g files h =
    go (iterate (draws n) g files) (iterate-Kept (draws n) g files h) (λ g' files' k.
      after (collect_loop n draws g' files') k
        (collect_loop-Kept n draws g' files' (no_empty_name k h)))
  where
    after :
        {g' : Collector} {files' : Files} (r : Option (Collector × Files))
        → Kept g files g' files'
        → LoopKept g' files' r
        → LoopKept g files r
    after none k l = l
    after (some (g'', files'')) k l = Kept-trans k l

    go :
        (it : Iteration)
        → IterationKept g files it
        → ((g' : Collector) (files' : Files)
            → Kept g files g' files'
            → LoopKept g files (collect_loop n draws g' files'))
        → LoopKept g files (elim it [
          | process_exit ↦ none
          | break g' files' ↦ some (g', files')
          | continue g' files' ↦ collect_loop n draws g' files'
        ])
    go process_exit k rest = k
    go (break g' files') k rest = k
    go (continue g' files') k rest = rest g' files' k

-- On a disk where no file has the empty name, a round of the collector returns: `_exit` is not
-- reached. Only marked files are deleted, a marked file that still exists is still marked, and no
-- file gains a mark or comes into being; whatever is drawn and whichever removals fail.
pub collect_garbage-keeps :
    (draws : ℕ → Draw) (g : Collector) (files : Files)
    → contains [] files ≡ false
    → (g' : Collector) × (files' : Files) × (collect_garbage draws g files ≡ some (g', files'))
      × Kept g files g' files'
unfolding collect_garbage
collect_garbage-keeps draws g files h =
    go (collect_garbage draws g files) refl
      (collect_loop-Kept (length g.set_of_files_to_delete * 10) draws g files h)
  where
    go :
        (r : Option (Collector × Files))
        → collect_garbage draws g files ≡ r
        → LoopKept g files r
        → (g' : Collector) × (files' : Files) × (collect_garbage draws g files ≡ some (g', files'))
          × Kept g files g' files'
    go none e k = absurd k
    go (some (g', files')) e k = (g', files', e, k)
