-- ===== src/Base/Bags.antt =====
-- Lists without their order: two lists are the same bag where every weighing of the entries gives
-- them the same total.
use Prim.Native.Nat.{ℕ, ◌+◌}
use mathlib.Core.Path.{◌≡◌, refl}
use mathlib.Core.List.{List, [], ◌∷◌, ◌++◌}
use mathlib.Core.Quot
use mathlib.Core.Quot.{Quot, Quot-set}
use native.Mathlib.Omega.{arith}

module _ {A : Type 0} where
  abbrev pub total : (A → ℕ) → List A → ℕ
  total v [] = 0
  total v (x ∷ xs) = v x + total v xs

  pub total-append : (v : A → ℕ) (xs ys : List A) → total v (xs ++ ys) ≡ total v xs + total v ys
  total-append v [] ys = omega arith
  total-append v (x ∷ xs) ys = omega (arith, total-append v xs ys)

  abbrev pub SameBag : List A → List A → Type 0
  SameBag xs ys = (v : A → ℕ) → total v xs ≡ total v ys

  pub SameBag-cons : (x : A) (xs ys : List A) → SameBag xs ys → SameBag (x ∷ xs) (x ∷ ys)
  SameBag-cons x xs ys h v = omega (arith, h v)

abbrev pub Bag : Type 0 → Type 0
Bag A = Quot (SameBag {A = A})

module _ {A : Type 0} where
  unfoldable pub bag : List A → Bag A
  bag xs = Quot.mk xs

  pub bag_eq : (xs ys : List A) → SameBag xs ys → bag xs ≡ bag ys
  unfolding bag
  bag_eq xs ys h = Quot.sound h

  unfoldable pub put : A → Bag A → Bag A
  put x =
      Quot.lift Quot-set (λ xs. Quot.mk (x ∷ xs)) (λ xs ys h. Quot.sound (SameBag-cons x xs ys h))

  pub put-bag : (x : A) (xs : List A) → put x (bag xs) ≡ bag (x ∷ xs)
  unfolding put bag
  put-bag x xs = refl
