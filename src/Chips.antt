-- ===== src/Chips.antt =====
-- The chips on a table, and what each event of internal/engine/apply.go brings to it: the account
-- that the reducer is held to.
pub mod Account
pub mod Commit
pub mod Seats
pub mod Awards
pub mod Streets
pub mod Reducer
pub mod Play
pub mod Ending
