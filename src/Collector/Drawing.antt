-- ===== src/Collector/Drawing.antt =====
-- The draw of a marked file.
use fluffi.Base.{
  ℕ, ◌+◌, ◌%◌, ◌≡◌, ◌⊎◌, inl, inr, true, false, ◌||◌, some, [], arith, ◌==◌, Bool-cases, length,
  get_elem?, erase_at, Text, text_eq, text_instance, contains, contains-erase_at,
  contains_of_get_elem?, length-erase_at, get_elem?-some,
}
use fluffi.Collector.{Collector, get_random_file_to_delete}

-- A file that is drawn was marked, and every other mark stays.
pub record Picked (g : Collector) (f : Text) (g' : Collector) : Type 0 where
  pub was_marked : contains f g.set_of_files_to_delete ≡ true
  pub others :
      (b : Text)
      → contains b g.set_of_files_to_delete ≡ (text_eq f b || contains b g'.set_of_files_to_delete)
  pub fewer : length g.set_of_files_to_delete ≡ length g'.set_of_files_to_delete + 1

abbrev drawn_at : ℕ → Collector → Collector
drawn_at i g = record g { set_of_files_to_delete = erase_at g.set_of_files_to_delete i }

get_random_some :
    (r : ℕ) (g : Collector) (f : Text)
    → (length g.set_of_files_to_delete == 0) ≡ false
    → get_elem? g.set_of_files_to_delete (r % length g.set_of_files_to_delete) ≡ some f
    → get_random_file_to_delete r g ≡ some (f, drawn_at (r % length g.set_of_files_to_delete) g)
unfolding get_random_file_to_delete
get_random_some r g f e at = rw e (ground arith)

drawn_at-Picked :
    (i : ℕ) (g : Collector) (f : Text)
    → get_elem? g.set_of_files_to_delete i ≡ some f
    → Picked g f (drawn_at i g)
drawn_at-Picked i g f at = record {
  was_marked = contains_of_get_elem? g.set_of_files_to_delete i f at;
  others = λ b. contains-erase_at g.set_of_files_to_delete i f b at;
  fewer = length-erase_at g.set_of_files_to_delete i f at;
}

-- Nothing is marked, or a marked file is drawn: `_exit` is not reached.
pub get_random_cases :
    (r : ℕ) (g : Collector)
    → ((length g.set_of_files_to_delete ≡ 0) × (get_random_file_to_delete r g ≡ some ([], g)))
      ⊎ ((f : Text) × (g' : Collector) × (get_random_file_to_delete r g ≡ some (f, g'))
          × Picked g f g')
unfolding get_random_file_to_delete
get_random_cases r g = elim (Bool-cases (length g.set_of_files_to_delete == 0)) [
  | inl e ↦ inl (ground arith, rw e)
  | inr e ↦
      let i = r % length g.set_of_files_to_delete in
      let (f, at) = get_elem?-some g.set_of_files_to_delete i (ground arith) in
      inr (f, drawn_at i g, get_random_some r g f e at, drawn_at-Picked i g f at)
]
