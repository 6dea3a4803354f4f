-- ===== src/Session.antt =====
-- internal/engine/session.go: the actor that owns a table's state. Its goroutine takes one command, or
-- one expired deadline, after the other, so a run of it is a sequence of steps.
pub mod Stamping
pub mod Process
pub mod Loop
pub mod Stored
pub mod Synced
pub mod Found
pub mod Numbers
pub mod Repeat
