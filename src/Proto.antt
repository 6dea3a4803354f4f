-- ===== src/Proto.antt =====
-- The messages of the engine: proto/poker/v1. A timestamp or a duration is a number of
-- nanoseconds; a message or `optional` field that may be nil is an Option; a map is a list of
-- entries whose order stands for Go's unspecified iteration order; bytes are a list of numbers.
mod Settings
mod States
mod Events
mod Commands
pub use Settings.*
pub use States.*
pub use Events.*
pub use Commands.*
