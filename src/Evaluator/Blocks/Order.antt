-- ===== src/Evaluator/Blocks/Order.antt =====
-- The order of blocks is a strict total order, and the set that it gives loses no block.
use fluffi.Base.{
  ◌≡◌, inl, inr, refl, true, false, ◌&&◌, ◌||◌, not, List, [], ◌∷◌, arith, Bool-cases, All, ℤ, pos,
  negsuc, int_ltb, contains,
}
use fluffi.Evaluator.Blocks.{
  Block, int_eq, int_eq_iff, block_lt, block_eq, block_eq_iff, block_instance, insert_sorted,
  sorted_set,
}

int_ltb_total : (a b : ℤ) → int_eq a b ≡ not (int_ltb a b || int_ltb b a)
int_ltb_total (pos a) (pos b) = ground arith
int_ltb_total (pos a) (negsuc b) = refl
int_ltb_total (negsuc a) (pos b) = refl
int_ltb_total (negsuc a) (negsuc b) = ground arith

int_ltb_asym : (a b : ℤ) → int_ltb a b ≡ true → int_ltb b a ≡ false
int_ltb_asym (pos a) (pos b) h = ground arith
int_ltb_asym (pos a) (negsuc b) h = ground arith
int_ltb_asym (negsuc a) (pos b) h = ground arith
int_ltb_asym (negsuc a) (negsuc b) h = ground arith

int_ltb_trans : (a b c : ℤ) → int_ltb a b ≡ true → int_ltb b c ≡ true → int_ltb a c ≡ true
int_ltb_trans (pos a) (pos b) (pos c) h k = ground arith
int_ltb_trans (pos a) (pos b) (negsuc c) h k = ground arith
int_ltb_trans (pos a) (negsuc b) c h k = ground arith
int_ltb_trans (negsuc a) (pos b) (pos c) h k = refl
int_ltb_trans (negsuc a) (pos b) (negsuc c) h k = ground arith
int_ltb_trans (negsuc a) (negsuc b) (pos c) h k = refl
int_ltb_trans (negsuc a) (negsuc b) (negsuc c) h k = ground arith

block_eq_of_lt : (a b : Block) → block_eq a b ≡ not (block_lt a b || block_lt b a)
unfolding block_lt block_eq
block_eq_of_lt a b = ground (
  arith,
  int_ltb_total a.module_id b.module_id,
  int_ltb_total b.module_id a.module_id,
  int_eq_iff a.module_id b.module_id,
  int_eq_iff b.module_id a.module_id,
)

block_lt_trans : (a b c : Block) → block_lt a b ≡ true → block_lt b c ≡ true → block_lt a c ≡ true
unfolding block_lt
block_lt_trans a b c h k = ground (
  arith,
  int_eq_iff a.module_id b.module_id,
  int_eq_iff b.module_id c.module_id,
  int_eq_iff a.module_id c.module_id,
  int_ltb_trans a.module_id b.module_id c.module_id,
  int_ltb_asym a.module_id b.module_id,
)

block_lt_asym : (a b : Block) → block_lt a b ≡ true → block_lt b a ≡ false
unfolding block_lt
block_lt_asym a b h = ground (
  arith,
  int_eq_iff a.module_id b.module_id,
  int_eq_iff b.module_id a.module_id,
  int_ltb_asym a.module_id b.module_id,
)

-- `operator<` on blocks is transitive and asymmetric, and two blocks are `operator==` exactly when
-- neither is less than the other: a `std::set` of blocks holds one copy of each.
pub block_lt_order :
    (a b c : Block)
    → (block_eq a b ≡ not (block_lt a b || block_lt b a))
      × ((block_lt a b && (block_lt b c && not (block_lt a c))) ≡ false)
      × ((block_lt a b && block_lt b a) ≡ false)
block_lt_order a b c =
    (block_eq_of_lt a b, ground (arith, block_lt_trans a b c), ground (arith, block_lt_asym a b))

contains-insert_sorted :
    (a b : Block) (xs : List Block)
    → contains b (insert_sorted a xs) ≡ (block_eq a b || contains b xs)
unfolding insert_sorted contains
contains-insert_sorted a b [] = refl
contains-insert_sorted a b (x ∷ xs) =
    ground (arith, contains-insert_sorted a b xs, block_eq_of_lt a x, block_eq_iff a x)

contains-sorted_set :
    (bs s : List Block) (b : Block) → contains b (sorted_set bs s) ≡ (contains b bs || contains b s)
unfolding sorted_set contains
contains-sorted_set [] s b = refl
contains-sorted_set (a ∷ bs) s b =
    ground (arith, contains-sorted_set bs (insert_sorted a s) b, contains-insert_sorted a b s)

-- Each block is less than all that follow it.
abbrev pub Ascending : List Block → Type 0
Ascending [] = Unit {0}
Ascending (x ∷ xs) = All (λ y. block_lt x y ≡ true) xs × Ascending xs

All-insert_sorted :
    (x a : Block) (xs : List Block)
    → block_lt x a ≡ true
    → All (λ y. block_lt x y ≡ true) xs
    → All (λ y. block_lt x y ≡ true) (insert_sorted a xs)
unfolding insert_sorted
All-insert_sorted x a [] h k = (h, tt)
All-insert_sorted x a (y ∷ ys) h k = elim (Bool-cases (block_lt a y)) [
  | inl e ↦ rw e (h, k)
  | inr e ↦ rw e (elim (Bool-cases (block_lt y a)) [
    | inl f ↦ rw f (k.0, All-insert_sorted x a ys h k.1)
    | inr f ↦ rw f k
  ])
]

All-trans :
    (a x : Block) (xs : List Block)
    → block_lt a x ≡ true
    → All (λ y. block_lt x y ≡ true) xs
    → All (λ y. block_lt a y ≡ true) xs
All-trans a x [] h k = tt
All-trans a x (y ∷ ys) h k = (block_lt_trans a x y h k.0, All-trans a x ys h k.1)

insert_sorted-Ascending :
    (a : Block) (xs : List Block) → Ascending xs → Ascending (insert_sorted a xs)
unfolding insert_sorted
insert_sorted-Ascending a [] s = (tt, tt)
insert_sorted-Ascending a (x ∷ xs) s = elim (Bool-cases (block_lt a x)) [
  | inl e ↦ rw e ((e, All-trans a x xs e s.0), s)
  | inr e ↦ rw e (elim (Bool-cases (block_lt x a)) [
    | inl f ↦ rw f (All-insert_sorted x a xs f s.0, insert_sorted-Ascending a xs s.1)
    | inr f ↦ rw f s
  ])
]

sorted_set-Ascending : (bs s : List Block) → Ascending s → Ascending (sorted_set bs s)
unfolding sorted_set
sorted_set-Ascending [] s h = h
sorted_set-Ascending (b ∷ bs) s h =
    sorted_set-Ascending bs (insert_sorted b s) (insert_sorted-Ascending b s h)

-- Reading a vector of blocks into a set and out again gives strictly ascending blocks, so none
-- twice, and exactly the blocks of the vector.
pub sorted_set-strips :
    (bs : List Block)
    → Ascending (sorted_set bs []) × ((b : Block) → contains b (sorted_set bs []) ≡ contains b bs)
unfolding contains
sorted_set-strips bs =
    (sorted_set-Ascending bs [] tt, λ b. ground (arith, contains-sorted_set bs [] b))
