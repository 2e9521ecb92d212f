-- ===== src/Transfer/Whole.antt =====
-- A file that is sent in chunks arrives whole.
use fluffi.Base.{
  ℕ, zero, suc, ◌+◌, ◌-◌, ◌*◌, ◌≤◌, ◌<◌, ◌≡◌, refl, ap, ◌∙◌, Bool, true, false, Option, some, ◌++◌,
  append_assoc, arith, if◌then◌else◌, length, take, drop, take-append-drop, length-drop, take-all,
  drop-drop,
}
use native.Mathlib.Decide.{dec_lt}
use fluffi.Transfer.Chunks.{Bytes, load_testcase_chunk, append_remaining_chunks}

-- The side that asks: the first chunk came with another message, the rest is asked for.
unfoldable pub receive : ℕ → (ℕ → Option (Bytes × Bool)) → Bytes × Bool → Option (Bool × Bytes)
receive fuel ask (first, last) =
    if last then some (true, first) else append_remaining_chunks fuel ask 1 first

module _ (size : ℕ) where
  module _ (before : Bool) (bytes : Bytes) where
    -- The side that serves.
    abbrev pub serve : ℕ → Option (Bytes × Bool)
    serve n = some (load_testcase_chunk size before n (some bytes))

    last_chunk :
        (n : ℕ)
        → n * size ≤ length bytes
        → length bytes ≤ n * size + size
        → load_testcase_chunk size before n (some bytes) ≡ (drop (n * size) bytes, true)
    unfolding load_testcase_chunk
    last_chunk n a b =
        let e : take (length bytes - n * size) (drop (n * size) bytes) ≡ drop (n * size) bytes =
          take-all (length bytes - n * size) (drop (n * size) bytes)
            (omega (arith, length-drop (n * size) bytes)) in
        ground arith

    inner_chunk :
        (n : ℕ)
        → n * size + size < length bytes
        → load_testcase_chunk size before n (some bytes)
          ≡ (take size (drop (n * size) bytes), false)
    unfolding load_testcase_chunk
    inner_chunk n a = ground arith

    next_part :
        (n : ℕ)
        → take size (drop (n * size) bytes) ++ drop ((n + 1) * size) bytes ≡ drop (n * size) bytes
    next_part n =
        let k : (n + 1) * size ≡ n * size + size = omega arith in
        rw (k, ← drop-drop size (n * size) bytes) (take-append-drop size (drop (n * size) bytes))

    drop_none : drop (0 * size) bytes ≡ bytes
    drop_none = let z : 0 * size ≡ 0 = omega arith in rw z refl

    append_remaining_whole :
        (fuel n : ℕ) (out : Bytes)
        → n * size ≤ length bytes
        → length bytes < (n + fuel) * size
        → out ++ drop (n * size) bytes ≡ bytes
        → append_remaining_chunks fuel serve n out ≡ some (true, bytes)
    unfolding append_remaining_chunks
    append_remaining_whole zero n out a b e = absurd (omega arith)
    append_remaining_whole (suc fuel) n out a b e = elim (dec_lt (n * size + size) (length bytes)) [
      | no big ↦ rw (last_chunk n a (omega arith)) (ap (λ (o : Bytes). some (true, o)) e)
      | yes more ↦ rw (inner_chunk n more) (
          append_remaining_whole fuel (n + 1) (out ++ take size (drop (n * size) bytes))
            (omega arith) (omega arith) (rw append_assoc (ap (◌++◌ out) (next_part n) ∙ e)))
    ]

  -- A file of any length, the empty one and whole multiples of the chunk size included, arrives as
  -- it is, when every request is answered; one request for each begun chunk is enough.
  pub receive_whole :
      (before : Bool) (bytes : Bytes) (fuel : ℕ)
      → length bytes < (1 + fuel) * size
      → receive fuel (serve before bytes) (load_testcase_chunk size before 0 (some bytes))
        ≡ some (true, bytes)
  unfolding receive
  receive_whole before bytes fuel h = elim (dec_lt size (length bytes)) [
    | no small ↦
        rw (last_chunk before bytes 0 (omega arith) (omega arith))
          (ap (λ (b : Bytes). some (true, b)) (drop_none before bytes))
    | yes more ↦ rw (inner_chunk before bytes 0 (omega arith)) (
        append_remaining_whole before bytes fuel 1 (take size (drop (0 * size) bytes)) (omega arith)
          h (next_part before bytes 0 ∙ drop_none before bytes))
  ]
