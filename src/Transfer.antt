-- ===== src/Transfer.antt =====
-- The transfer of testcase files in chunks: core/SharedCode/Util (loadTestcaseChunkInMemory,
-- appendRemainingChunks, storeTestcaseFileOnDisk) and GetTestcaseChunkRequestHandler.
pub mod Chunks
pub mod Whole
pub mod Storing
