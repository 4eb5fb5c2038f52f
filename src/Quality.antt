-- ===== src/Quality.antt =====
-- internal/quality: from measurements of a stream to a stable verdict.
pub mod Status
pub mod Score
pub mod Window
pub mod Analyzer
pub mod Engine
mod Tests
