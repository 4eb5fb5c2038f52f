-- ===== src/Signaling.antt =====
-- internal/signaling: the logical sessions of the participants.
pub mod Session
mod Tests
