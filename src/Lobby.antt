-- ===== src/Lobby.antt =====
-- internal/lobby/join_leave.go and internal/engine/lobby.go: the state of a table from the store, and
-- joining and leaving a table in one transaction with the user's balance.
pub mod Loading
pub mod Seating
pub mod Tables
pub mod Reading
pub mod Atomic
pub mod Conserve
pub mod Leave
pub mod Lost
pub mod Seats
pub mod Pages
pub mod Replay
