-- ===== src/Comm.antt =====
-- core/SharedCode: the server side of the communication between agents. Clients' requests pass
-- through a proxy to the threads that handle them, and the replies back.
pub mod Proxy
pub mod Network
pub mod Protocol
pub mod Refinement
pub mod Progress
pub mod Commands
pub mod Placement
