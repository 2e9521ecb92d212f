-- ===== src/SharedMem/Channel/Roundtrip.antt =====
-- A message that is sent is received, and the two directions do not disturb each other.
use fluffi.Base.{
  ℕ, ◌+◌, ◌-◌, ◌^◌, ◌≤◌, ◌<◌, ◌≡◌, ◌⊎◌, inl, refl, ◌∙◌, true, List, [], ◌∷◌, arith, length,
}
use fluffi.SharedMem.Memory.{View, write_bytes, read_bytes, u32_bytes, read_u32}
use fluffi.SharedMem.Memory.Access.{
  write_bytes_outside, read-write_bytes, read-write_u32, read_u32_same,
}
use fluffi.SharedMem.Channel.{Message, max_path, place_message, read_message}

length-u32_bytes : (x : ℕ) → length (u32_bytes x) ≡ 4
unfolding u32_bytes
length-u32_bytes x = refl

-- A message that fits: shorter than its room, and of a 32-bit type.
pub record Fits (room : ℕ) (m : Message) : Type 0 where
  pub short : length m.bytes < room - 268
  pub small : room < 2 ^ 32
  pub type_small : m.message_type < 2 ^ 32

-- The three writes of a message.
abbrev pub header : ℕ → Message → View → View
header base m v =
    write_bytes (base + max_path + 4) (u32_bytes (length m.bytes))
      (write_bytes (base + max_path) (u32_bytes m.message_type) v)

abbrev pub placed : ℕ → Message → View → View
placed base m v = write_bytes (base + max_path + 8) m.bytes (header base m v)

header_outside :
    (base : ℕ) (m : Message) (v : View) (a : ℕ)
    → (a < base + 260) ⊎ (base + 268 ≤ a)
    → header base m v a ≡ v a
header_outside base m v a h =
    let type_written = write_bytes (base + max_path) (u32_bytes m.message_type) v in
    let n = length-u32_bytes (length m.bytes) in
    let t = length-u32_bytes m.message_type in
    write_bytes_outside (base + max_path + 4) (u32_bytes (length m.bytes)) type_written a
      (ground arith)
    ∙ write_bytes_outside (base + max_path) (u32_bytes m.message_type) v a (ground arith)

-- Placing a message, also one that is too long, changes bytes of its half behind the name alone.
pub place_outside :
    (base room : ℕ) (m : Message) (v : View) (a : ℕ)
    → 268 ≤ room
    → (a < base + 260) ⊎ (base + room ≤ a)
    → (place_message base room m v).1 a ≡ v a
unfolding place_message
place_outside base room m v a r h = ground (
  arith,
  header_outside base m v a,
  write_bytes_outside (base + max_path + 8) m.bytes (header base m v) a,
)

write_nothing : (off : ℕ) (v : View) → write_bytes off [] v ≡ v
unfolding write_bytes
write_nothing off v = refl

place_short :
    (base room : ℕ) (t : ℕ) (bs : List ℕ) (v : View)
    → length bs < room - 268
    → place_message base room (record { message_type = t; bytes = bs }) v
      ≡ (true, placed base (record { message_type = t; bytes = bs }) v)
unfolding place_message
place_short base room t [] v h = rw write_nothing
place_short base room t (b ∷ bs) v h = ground arith

pub place-Fits :
    (base room : ℕ) (m : Message) (v : View)
    → Fits room m
    → place_message base room m v ≡ (true, placed base m v)
place-Fits base room m v f = place_short base room m.message_type m.bytes v f.short

pub length-placed :
    (base : ℕ) (m : Message) (v : View)
    → length m.bytes < 2 ^ 32
    → read_u32 (base + max_path + 4) (placed base m v) ≡ length m.bytes
length-placed base m v h =
    read_u32_same (base + max_path + 4) (placed base m v) (header base m v) (λ a p q.
      write_bytes_outside (base + max_path + 8) m.bytes (header base m v) a (inl (omega arith)))
    ∙ read-write_u32 (base + max_path + 4) (length m.bytes)
        (write_bytes (base + max_path) (u32_bytes m.message_type) v)
    ∙ omega arith

-- What is placed is read.
pub read-placed :
    (base room : ℕ) (m : Message) (v : View) → Fits room m → read_message base (placed base m v) ≡ m
unfolding read_message
read-placed base room m v f = λ i. record { message_type = type_read i; bytes = bytes_read i }
  where
    type_view : View
    type_view = write_bytes (base + max_path) (u32_bytes m.message_type) v

    type_read : read_u32 (base + max_path) (placed base m v) ≡ m.message_type
    type_read =
        read_u32_same (base + max_path) (placed base m v) type_view (λ a p q.
          write_bytes_outside (base + max_path + 8) m.bytes (header base m v) a (inl (omega arith))
          ∙ write_bytes_outside (base + max_path + 4) (u32_bytes (length m.bytes)) type_view a
              (inl (omega arith)))
        ∙ read-write_u32 (base + max_path) m.message_type v
        ∙ omega (arith, f.type_small)

    length_read : read_u32 (base + max_path + 4) (placed base m v) ≡ length m.bytes
    length_read = length-placed base m v (omega (arith, f.short, f.small))

    bytes_read :
        read_bytes
          (base + max_path + 8)
          (read_u32 (base + max_path + 4) (placed base m v))
          (placed base m v)
        ≡ m.bytes
    bytes_read = rw length_read (read-write_bytes (base + max_path + 8) m.bytes (header base m v))
