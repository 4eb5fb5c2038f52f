-- ===== src/Cluster.antt =====
-- internal/cluster: the state that several nodes share, and the decisions that are taken on it.
pub mod Node
pub mod Rooms
pub mod Registry
pub mod Participants
pub mod Load
pub mod Dedup
pub mod Policy
pub mod Router
pub mod Detector
pub mod Recovery
pub mod Handler
pub mod Media
pub mod MediaSession
