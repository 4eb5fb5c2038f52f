-- ===== src/History.antt =====
-- internal/history: the summaries of calls.
pub mod Recorder
mod Tests
