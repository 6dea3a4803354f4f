-- ===== src/Rounds.antt =====
-- The loop of internal/engine/handler.go and what a refused command leaves behind.
pub mod Replay
pub mod Settled
pub mod Refused
pub mod Version
