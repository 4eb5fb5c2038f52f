-- ===== src/Sfu.antt =====
-- internal/sfu: the media plane.
pub mod SendQueue
pub mod WriteLoop
pub mod Room
pub mod Negotiation
pub mod Publication
mod Tests
