-- ===== src/SharedMem.antt =====
-- core/SharedMemIPC: messages between two processes through shared memory, and the set-up of the
-- memory and of the pipes or events that signal a message.
pub mod Memory
pub mod Channel
pub mod Posix
pub mod Windows
