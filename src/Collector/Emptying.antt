-- ===== src/Collector/Emptying.antt =====
-- A round in which every removal succeeds.
use fluffi.Base.{
  ℕ, zero, suc, ◌+◌, ◌*◌, ◌≤◌, ◌≡◌, refl, ◌⊎◌, inl, inr, true, false, some, [], arith,
  if◌then◌else◌, length, Text, text_eq_iff, text_instance, contains, without,
}
use fluffi.Collector.{
  Files, Collector, Draw, break, continue, attempt, iterate, collect_loop, collect_garbage,
}
use fluffi.Collector.Drawing.{Picked, get_random_cases}
use fluffi.Collector.Round.{attempt_nothing}

-- Where every removal succeeds and no mark has the empty name, each iteration takes one mark away.
iterate_removing :
    (d : Draw) (g : Collector) (files : Files)
    → d.removable ≡ true
    → contains [] g.set_of_files_to_delete ≡ false
    → ((length g.set_of_files_to_delete ≡ 0) × (iterate d g files ≡ break g files))
      ⊎ ((g' : Collector) × (files' : Files) × (iterate d g files ≡ continue g' files')
          × (length g.set_of_files_to_delete ≡ length g'.set_of_files_to_delete + 1)
          × (contains [] g'.set_of_files_to_delete ≡ false))
unfolding iterate
iterate_removing d g files r h = elim (get_random_cases d.random g) [
  | inl (e, draw) ↦ inl (e, rw (draw, iterate, attempt_nothing d.removable g files))
  | inr (f, g', draw, p) ↦ inr (
    g',
    (if contains f files then without f files else files),
    rw (draw, iterate) (attempt_removable f g' p),
    p.fewer,
    ground (arith, p.others []),
  )
]
  where
    attempt_removable :
        (f : Text) (g' : Collector)
        → Picked g f g'
        → attempt f d.removable g' files
          ≡ continue g' (if contains f files then without f files else files)
    attempt_removable f g' p = unfold attempt in ground (arith, text_eq_iff f [], p.was_marked)

collect_loop_empties :
    (n : ℕ) (draws : ℕ → Draw) (g : Collector) (files : Files)
    → ((i : ℕ) → (draws i).removable ≡ true)
    → contains [] g.set_of_files_to_delete ≡ false
    → length g.set_of_files_to_delete ≤ n
    → (g' : Collector) × (files' : Files) × (collect_loop n draws g files ≡ some (g', files'))
      × (length g'.set_of_files_to_delete ≡ 0)
unfolding collect_loop
collect_loop_empties zero draws g files r h l = (g, files, refl, omega arith)
collect_loop_empties (suc n) draws g files r h l =
    elim (iterate_removing (draws n) g files (r n) h) [
      | inl (e, it) ↦ (g, files, rw (it, collect_loop), e)
      | inr (g', files', it, fewer, h') ↦
          let (k, fs, loop, e) = collect_loop_empties n draws g' files' r h' (omega arith) in
          (k, fs, rw (it, collect_loop) loop, e)
    ]

-- When every removal succeeds and the empty name is not marked, one round leaves no mark: ten
-- iterations for each marked file are enough, whatever is drawn.
pub collect_garbage_empties :
    (draws : ℕ → Draw) (g : Collector) (files : Files)
    → ((i : ℕ) → (draws i).removable ≡ true)
    → contains [] g.set_of_files_to_delete ≡ false
    → (g' : Collector) × (files' : Files) × (collect_garbage draws g files ≡ some (g', files'))
      × (length g'.set_of_files_to_delete ≡ 0)
unfolding collect_garbage
collect_garbage_empties draws g files r h =
    collect_loop_empties (length g.set_of_files_to_delete * 10) draws g files r h (omega arith)
