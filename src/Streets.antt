-- ===== src/Streets.antt =====
-- What the action orders of internal/engine/apply.go do from street to street.
pub mod Turns
pub mod AllIn
