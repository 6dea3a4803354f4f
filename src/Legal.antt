-- ===== src/Legal.antt =====
-- What the validators of internal/engine let through, and what an accepted action does to a stack.
pub mod Action
pub mod Amounts
pub mod Solvent
pub mod Covered
pub mod Timeout
