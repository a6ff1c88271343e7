-- ===== src/Spool.antt =====
-- The agent's disk buffer for probe results (internal/agent/spool/spool.go).
pub mod Counters
pub mod Files
pub mod Frames
pub mod Segments
mod Tests
