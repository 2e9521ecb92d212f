-- ===== src/SharedMem/Memory.antt =====
-- Shared memory as a function from offsets to bytes, with the accesses of SharedMemIPC.cpp:
-- `memcpy`, and `uint32_t` in little-endian order.
pub mod Access
use fluffi.Base.{ℕ, zero, suc, ◌+◌, ◌*◌, ◌/◌, ◌%◌, List, [], ◌∷◌, ◌==◌, if◌then◌else◌}

abbrev pub View : Type 0
View = ℕ → ℕ

abbrev pub set_byte : ℕ → ℕ → View → View
set_byte off b v a = if a == off then b else v a

unfoldable pub write_bytes : ℕ → List ℕ → View → View
write_bytes off [] v = v
write_bytes off (b ∷ bs) v = write_bytes (off + 1) bs (set_byte off b v)

unfoldable pub read_bytes : ℕ → ℕ → View → List ℕ
read_bytes off zero v = []
read_bytes off (suc n) v = v off ∷ read_bytes (off + 1) n v

unfoldable pub u32_bytes : ℕ → List ℕ
u32_bytes x = x % 256 ∷ (x / 256 % 256) ∷ (x / 65536 % 256) ∷ (x / 16777216 % 256) ∷ []

unfoldable pub read_u32 : ℕ → View → ℕ
read_u32 off v = v off + 256 * v (off + 1) + 65536 * v (off + 2) + 16777216 * v (off + 3)
