-- ===== src/Eval.antt =====
-- internal/engine/eval.go: the rank of five cards and the best five of a player's cards.
pub mod Rank
pub mod Groups
pub mod Five
pub mod Best
