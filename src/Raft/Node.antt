-- ===== src/Raft/Node.antt =====
-- src/raft/node.rs: a Raft node, by its roles.
pub mod Progress
pub mod Quorum
pub mod Raw
pub mod Candidate
pub mod Follower
pub mod Leader
pub mod Roles
mod Tests
pub mod Keeps
pub mod LeadsTo
