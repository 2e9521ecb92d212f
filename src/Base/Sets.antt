-- ===== src/Base/Sets.antt =====
-- Types with an equality test, and `std::set` as a list without repetitions.
use Prim.Native.Nat.{ℕ, zero, suc, ◌+◌, ◌≤◌, ◌<◌}
use mathlib.Core.Path.{◌≡◌, refl}
use mathlib.Core.Logic.{◌↔◌, inl, inr}
use mathlib.Core.Bool.{Bool, true, false, ◌||◌}
use mathlib.Core.Option.{some}
use mathlib.Core.List.{List, [], ◌∷◌, ◌++◌}
use native.Mathlib.Omega.{arith}
use fluffi.Base.Tests.{◌==◌, ==_iff, if◌then◌else◌, Bool-cases}
use fluffi.Base.Lists.{length, get_elem?, erase_at}
use fluffi.Base.Bytes.{Text, text_eq, text_eq_iff}

pub record Eq {ℓ} (A : Type ℓ) : Type ℓ where
  pub beq : A → A → Bool
  pub beq_iff : (a b : A) → (beq a b ≡ true) ↔ (a ≡ b)

instance abbrev pub nat_eq : Eq ℕ
nat_eq = record { beq = ◌==◌; beq_iff = ==_iff }

instance abbrev pub text_instance : Eq Text
text_instance = record { beq = text_eq; beq_iff = text_eq_iff }

module _ {ℓ} {A : Type ℓ} ⦃e : Eq A⦄ where
  pub beq_self : (a : A) → e.beq a a ≡ true
  beq_self a = (e.beq_iff a a).1 refl

  unfoldable pub contains : A → List A → Bool
  contains a [] = false
  contains a (x ∷ xs) = e.beq x a || contains a xs

  -- `std::set::insert`: an element that is there is not added again.
  unfoldable pub insert : A → List A → List A
  unfolding contains
  insert a xs = if contains a xs then xs else a ∷ xs

  unfoldable pub insert_all : List A → List A → List A
  unfolding insert
  insert_all [] xs = xs
  insert_all (a ∷ as') xs = insert_all as' (insert a xs)

  pub contains-insert :
      (a b : A) (xs : List A) → contains b (insert a xs) ≡ (e.beq a b || contains b xs)
  unfolding insert
  contains-insert a b xs = ground (arith, e.beq_iff a b)

  pub contains-insert_self : (a : A) (xs : List A) → contains a (insert a xs) ≡ true
  contains-insert_self a xs = rw (contains-insert a a xs, beq_self a)

  pub contains-insert_mono :
      (a b : A) (xs : List A) → contains b xs ≡ true → contains b (insert a xs) ≡ true
  contains-insert_mono a b xs h = rw (contains-insert a b xs) (ground arith)

  pub contains-append :
      (a : A) (xs ys : List A) → contains a (xs ++ ys) ≡ (contains a xs || contains a ys)
  unfolding contains
  contains-append a [] ys = refl
  contains-append a (x ∷ xs) ys = ground (arith, contains-append a xs ys)

  pub contains-insert_all :
      (as' xs : List A) (b : A) → contains b (insert_all as' xs) ≡ (contains b as' || contains b xs)
  unfolding insert_all contains
  contains-insert_all [] xs b = refl
  contains-insert_all (a ∷ as') xs b =
      ground (arith, contains-insert_all as' (insert a xs) b, contains-insert a b xs)

  -- What stands at an index that is erased was there, and all else stays.
  pub contains-erase_at :
      (xs : List A) (i : ℕ) (x b : A)
      → get_elem? xs i ≡ some x
      → contains b xs ≡ (e.beq x b || contains b (erase_at xs i))
  unfolding contains
  contains-erase_at [] i x b h = cc
  contains-erase_at (y ∷ ys) zero x b h = ground arith
  contains-erase_at (y ∷ ys) (suc i) x b h = ground (arith, contains-erase_at ys i x b)

  -- The list without an element.
  unfoldable pub without : A → List A → List A
  without a [] = []
  without a (x ∷ xs) = if e.beq x a then without a xs else x ∷ without a xs

  pub contains-without :
      (a b : A) (xs : List A)
      → contains b (without a xs) ≡ (if e.beq a b then false else contains b xs)
  unfolding without contains
  contains-without a b [] = ground arith
  contains-without a b (x ∷ xs) =
      ground (arith, contains-without a b xs, e.beq_iff x a, e.beq_iff a b, e.beq_iff x b)

  pub contains_of_get_elem? :
      (xs : List A) (i : ℕ) (x : A) → get_elem? xs i ≡ some x → contains x xs ≡ true
  contains_of_get_elem? xs i x h = rw (contains-erase_at xs i x x h, beq_self x)

  pub length-erase_at :
      (xs : List A) (i : ℕ) (x : A)
      → get_elem? xs i ≡ some x
      → length xs ≡ length (erase_at xs i) + 1
  length-erase_at [] i x h = cc
  length-erase_at (y ∷ ys) zero x h = omega arith
  length-erase_at (y ∷ ys) (suc i) x h = omega (arith, length-erase_at ys i x h)

  pub get_elem?-some : (xs : List A) (i : ℕ) → i < length xs → (x : A) × (get_elem? xs i ≡ some x)
  get_elem?-some [] i h = absurd (omega arith)
  get_elem?-some (x ∷ xs) zero h = (x, refl)
  get_elem?-some (x ∷ xs) (suc i) h = get_elem?-some xs i (omega arith)

  pub length-insert : (a : A) (xs : List A) → length (insert a xs) ≤ length xs + 1
  unfolding insert
  length-insert a xs = ground arith

  -- No element twice.
  abbrev pub Distinct : List A → Type 0
  Distinct [] = Unit {0}
  Distinct (x ∷ xs) = (contains x xs ≡ false) × Distinct xs

  pub insert-Distinct : (a : A) (xs : List A) → Distinct xs → Distinct (insert a xs)
  unfolding insert
  insert-Distinct a xs d = elim (Bool-cases (contains a xs)) [
    | inl h ↦ rw h d
    | inr h ↦ rw h (h, d)
  ]
