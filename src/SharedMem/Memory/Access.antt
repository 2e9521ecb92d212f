-- ===== src/SharedMem/Memory/Access.antt =====
-- What is written is read, and nothing else changes.
use fluffi.Base.{
  ℕ, zero, suc, ◌+◌, ◌%◌, ◌^◌, ◌≤◌, ◌<◌, ◌≡◌, ◌⊎◌, refl, List, [], ◌∷◌, arith, length,
}
use fluffi.SharedMem.Memory.{View, set_byte, write_bytes, read_bytes, u32_bytes, read_u32}

pub write_bytes_outside :
    (off : ℕ) (bs : List ℕ) (v : View) (a : ℕ)
    → (a < off) ⊎ (off + length bs ≤ a)
    → write_bytes off bs v a ≡ v a
unfolding write_bytes
write_bytes_outside off [] v a h = refl
write_bytes_outside off (b ∷ bs) v a h =
    ground (arith, write_bytes_outside (off + 1) bs (set_byte off b v) a)

-- Reading depends on the bytes that are read alone.
pub read_bytes_same :
    (off n : ℕ) (v w : View)
    → ((a : ℕ) → off ≤ a → a < off + n → v a ≡ w a)
    → read_bytes off n v ≡ read_bytes off n w
unfolding read_bytes
read_bytes_same off zero v w h = refl
read_bytes_same off (suc n) v w h = ground (
  arith,
  h off (omega arith) (omega arith),
  read_bytes_same (off + 1) n v w (λ a p q. h a (omega arith) (omega arith)),
)

pub read-write_bytes :
    (off : ℕ) (bs : List ℕ) (v : View) → read_bytes off (length bs) (write_bytes off bs v) ≡ bs
unfolding read_bytes write_bytes
read-write_bytes off [] v = refl
read-write_bytes off (b ∷ bs) v = ground (
  arith,
  read-write_bytes (off + 1) bs (set_byte off b v),
  write_bytes_outside (off + 1) bs (set_byte off b v) off,
)

-- A `uint32_t` is read as it was written.
pub read-write_u32 :
    (off x : ℕ) (v : View) → read_u32 off (write_bytes off (u32_bytes x) v) ≡ x % 2 ^ 32
unfolding read_u32 u32_bytes write_bytes
read-write_u32 off x v = ground arith

pub read_u32_same :
    (off : ℕ) (v w : View)
    → ((a : ℕ) → off ≤ a → a < off + 4 → v a ≡ w a)
    → read_u32 off v ≡ read_u32 off w
unfolding read_u32
read_u32_same off v w h = ground (
  arith,
  h off (omega arith) (omega arith),
  h (off + 1) (omega arith) (omega arith),
  h (off + 2) (omega arith) (omega arith),
  h (off + 3) (omega arith) (omega arith),
)
