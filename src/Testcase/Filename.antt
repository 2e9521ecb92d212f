-- ===== src/Testcase/Filename.antt =====
-- Util::generateTestcasePathAndFilename gives each testcase a path of its own.
use fluffi.Base.{
  ℕ, zero, suc, ◌+◌, ◌-◌, ◌*◌, ◌/◌, ◌%◌, ◌<◌, ◌≡◌, refl, sym, ap, ◌∙◌, ◌↔◌, true, false, inl, inr,
  [], ◌∷◌, ◌++◌, arith, ◌==◌, Bool-cases, Text, codes, text_eq_iff, contains, contains-append,
  nat_eq,
}
use fluffi.Testcase.{TestcaseId, id_eq, digits, to_string, generate_testcase_path_and_filename}

-- The number that digits stand for, read on after `v`.
value : ℕ → Text → ℕ
value v [] = v
value v (c ∷ cs) = value (10 * v + (c - 48)) cs

value-digits : (f n : ℕ) (acc : Text) → n < f → value 0 (digits f n acc) ≡ value n acc
unfolding value digits
value-digits zero n acc h = absurd (omega arith)
value-digits (suc f) n acc h = elim (Bool-cases (n / 10 == 0)) [
  | inl e ↦ rw e (ap (λ k. value k acc) (ground arith))
  | inr e ↦ rw e (
      value-digits f (n / 10) ((48 + n % 10) ∷ acc) (ground arith)
      ∙ ap (λ k. value k acc) (omega arith))
]

to_string-injective : (a b : ℕ) → to_string a ≡ to_string b → a ≡ b
unfolding to_string value
to_string-injective a b h =
    sym (value-digits (suc a) a [] (omega arith))
    ∙ ap (value 0) h
    ∙ value-digits (suc b) b [] (omega arith)

-- A dash is no digit.
contains-digits : (f n : ℕ) (acc : Text) → contains 45 (digits f n acc) ≡ contains 45 acc
unfolding digits contains
contains-digits zero n acc = refl
contains-digits (suc f) n acc = ground (arith, contains-digits f (n / 10) ((48 + n % 10) ∷ acc))

contains-to_string : (n : ℕ) → contains 45 (to_string n) ≡ false
unfolding to_string contains
contains-to_string n = contains-digits (suc n) n []

contains_dash : (xs ys : Text) → contains 45 (xs ++ 45 ∷ ys) ≡ true
unfolding contains
contains_dash xs ys = ground (arith, contains-append 45 xs (45 ∷ ys))

-- The last dash splits a text in one way.
split_last_dash :
    (xs ys ds es : Text)
    → contains 45 ds ≡ false
    → contains 45 es ≡ false
    → xs ++ 45 ∷ ds ≡ ys ++ 45 ∷ es
    → (xs ≡ ys) × (ds ≡ es)
split_last_dash [] [] ds es p q h = (refl, cc)
split_last_dash [] (y ∷ ys) ds es p q h = ground (arith, contains_dash ys es)
split_last_dash (x ∷ xs) [] ds es p q h = ground (arith, contains_dash xs ds)
split_last_dash (x ∷ xs) (y ∷ ys) ds es p q h = ground (arith, split_last_dash xs ys ds es p q (cc))

append_cancel : (dir xs ys : Text) → dir ++ xs ≡ dir ++ ys → xs ≡ ys
append_cancel [] xs ys h = h
append_cancel (d ∷ dir) xs ys h = append_cancel dir xs ys (cc)

-- In one directory the paths of two testcases are the same text exactly when `operator==` identifies
-- them, whatever the GUIDs contain. That different texts name different files is up to the file
-- system, and asks for GUIDs without a slash.
pub path-injective :
    (a b : TestcaseId) (dir : Text)
    → (generate_testcase_path_and_filename a dir ≡ generate_testcase_path_and_filename b dir)
      ↔ (id_eq a b ≡ true)
unfolding generate_testcase_path_and_filename id_eq
path-injective a b dir =
    (forward, λ h. ground (arith, text_eq_iff a.service_descriptor.guid b.service_descriptor.guid))
  where
    forward :
        (generate_testcase_path_and_filename a dir ≡ generate_testcase_path_and_filename b dir)
        → (id_eq a b ≡ true)
    forward h = ground (
      arith,
      text_eq_iff a.service_descriptor.guid b.service_descriptor.guid,
      split_last_dash a.service_descriptor.guid b.service_descriptor.guid (to_string a.local_id)
          (to_string b.local_id) (contains-to_string a.local_id) (contains-to_string b.local_id)
          (append_cancel (codes "/") _ _ (append_cancel dir _ _ h)),
      to_string-injective a.local_id b.local_id,
    )
