-- ===== src/Evaluator/Blocks.antt =====
-- core/SharedCode/FluffiBasicBlock and core/TestcaseEvaluator/BlockCoverageCache. A `std::set` of
-- blocks is the list of its elements; in `strip_duplicate_blocks` the list is in the set's order.
pub mod Order
use fluffi.Base.{
  ℕ, ◌≡◌, ◌↔◌, Bool, true, false, ◌&&◌, List, [], ◌∷◌, arith, ltb, ◌==◌, if◌then◌else◌, ℤ, pos,
  negsuc, int_ltb, Eq, contains, insert, insert_all, length,
}

pub record Block : Type 0 where
  pub module_id : ℤ
  pub rva : ℕ

abbrev pub int_eq : ℤ → ℤ → Bool
int_eq (pos a) (pos b) = a == b
int_eq (pos a) (negsuc b) = false
int_eq (negsuc a) (pos b) = false
int_eq (negsuc a) (negsuc b) = a == b

pub int_eq_iff : (a b : ℤ) → (int_eq a b ≡ true) ↔ (a ≡ b)
int_eq_iff (pos a) (pos b) = ground arith
int_eq_iff (pos a) (negsuc b) = ground arith
int_eq_iff (negsuc a) (pos b) = ground arith
int_eq_iff (negsuc a) (negsuc b) = ground arith

-- `operator<`
unfoldable pub block_lt : Block → Block → Bool
block_lt a b =
    if int_eq a.module_id b.module_id then ltb a.rva b.rva else int_ltb a.module_id b.module_id

-- `operator==`
unfoldable pub block_eq : Block → Block → Bool
block_eq a b = a.rva == b.rva && int_eq a.module_id b.module_id

pub block_eq_iff : (a b : Block) → (block_eq a b ≡ true) ↔ (a ≡ b)
unfolding block_eq
block_eq_iff a b = ground (arith, int_eq_iff a.module_id b.module_id)

instance abbrev pub block_instance : Eq Block
block_instance = record { beq = block_eq; beq_iff = block_eq_iff }

abbrev pub Cache : Type 0
Cache = List Block

unfoldable pub add_block_to_cache : Block → Cache → Cache
add_block_to_cache b c = insert b c

unfoldable pub add_blocks_to_cache : List Block → Cache → Cache
add_blocks_to_cache bs c = insert_all bs c

unfoldable pub is_block_in_cache : Block → Cache → Bool
is_block_in_cache b c = contains b c

unfoldable pub is_block_in_cache_and_add_it_if_not : Block → Cache → Bool × Cache
is_block_in_cache_and_add_it_if_not b c = if contains b c then (true, c) else (false, insert b c)

unfoldable pub get_size_of_cache : Cache → ℕ
get_size_of_cache c = length c

-- `std::set::insert` in the order of the blocks.
unfoldable pub insert_sorted : Block → List Block → List Block
insert_sorted b [] = b ∷ []
insert_sorted b (x ∷ xs) =
    let rest = insert_sorted b xs in
    if block_lt b x then b ∷ (x ∷ xs) else if block_lt x b then x ∷ rest else x ∷ xs

-- The blocks of a vector, put into a set from the front and read out in its order.
unfoldable pub sorted_set : List Block → List Block → List Block
unfolding insert_sorted
sorted_set [] s = s
sorted_set (b ∷ bs) s = sorted_set bs (insert_sorted b s)
