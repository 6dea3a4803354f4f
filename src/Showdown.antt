-- ===== src/Showdown.antt =====
-- The showdown of internal/engine/advance.go.
pub mod Leaders
pub mod Winners
pub mod Strongest
pub mod Nibbles
pub mod Payout
