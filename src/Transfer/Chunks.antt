-- ===== src/Transfer/Chunks.antt =====
-- The chunks of a file, on the side that serves them and on the side that asks for them.
use fluffi.Base.{
  ℕ, zero, suc, ◌+◌, ◌-◌, ◌*◌, Bool, true, false, ◌&&◌, Option, none, some, List, [], ◌++◌, ltb,
  if◌then◌else◌, length, take, drop, Text,
}
use fluffi.Testcase.{TestcaseId, generate_testcase_path_and_filename}
use fluffi.Collector.{Collector, mark_file_for_delete}

-- CommInt::chunkSizeInBytes
abbrev pub chunk_size_in_bytes : ℕ
chunk_size_in_bytes = 100 * 1000 * 1000

abbrev pub Bytes : Type 0
Bytes = List ℕ

-- GetTestCaseChunkResponse
pub record ChunkResponse : Type 0 where
  pub chunk_id : ℕ
  pub is_last_chunk : Bool
  pub testcase_chunk : Bytes

module _ (chunk_size : ℕ) where
  -- Util::loadTestcaseChunkInMemory of a file, which is `none` where it cannot be opened. On the
  -- error paths the variable behind `isLastChunk` keeps the value `before`.
  unfoldable pub load_testcase_chunk : Bool → ℕ → Option Bytes → Bytes × Bool
  load_testcase_chunk before chunk_num none = ([], before)
  load_testcase_chunk before chunk_num (some bytes) =
      if ltb (length bytes) (chunk_num * chunk_size)
      then ([], before)
      else if ltb (chunk_num * chunk_size + chunk_size) (length bytes)
      then (take chunk_size (drop (chunk_num * chunk_size) bytes), false)
      else (
        take (length bytes - chunk_num * chunk_size) (drop (chunk_num * chunk_size) bytes),
        true,
      )

  -- GetTestcaseChunkRequestHandler::handleFLUFFIMessage
  unfoldable pub handle_chunk_request :
      Bool → Text → Bool → TestcaseId → ℕ → Option Bytes → Collector → ChunkResponse × Collector
  unfolding load_testcase_chunk
  handle_chunk_request delete_file_on_last_chunk dir before id chunk_num file g =
      let (bytes, last) = load_testcase_chunk before chunk_num file in
      (
        record { chunk_id = chunk_num; is_last_chunk = last; testcase_chunk = bytes },
        if last && delete_file_on_last_chunk
            then mark_file_for_delete (generate_testcase_path_and_filename id dir) g
            else g,
      )

-- Util::appendRemainingChunks: `ask n` is the answer to the request for chunk `n`, if there is one.
-- The result is the Boolean that is returned and what the file holds; `none` is a lack of fuel.
unfoldable pub append_remaining_chunks :
    ℕ → (ℕ → Option (Bytes × Bool)) → ℕ → Bytes → Option (Bool × Bytes)
append_remaining_chunks zero ask chunk_id out = none
append_remaining_chunks (suc f) ask chunk_id out = elim (ask chunk_id) [
  | none ↦ some (false, out)
  | some (bytes, last) ↦
      let rest = append_remaining_chunks f ask (chunk_id + 1) (out ++ bytes) in
      if last then some (true, out ++ bytes) else rest
]
