-- ===== src/Room.antt =====
-- internal/room: the rooms of the signaling layer.
pub mod Manager
mod Tests
