-- ===== src/Raft.antt =====
-- src/raft: the replicated log and the node that runs the Raft protocol.
pub mod Log
pub mod Message
pub mod Node
