-- ===== src/Lib.antt =====
-- Verification of pace-poker: the event-sourced state machine of one cash-game table, the session that
-- runs and stores it, and the store, with the lobby that moves chips between users and tables.
--
-- The program. A table is a `GameState` (proto/poker/v1/state.proto). A player's command goes
-- through the validators, which refuse it with a reason or let it pass; a command that has passed
-- becomes events; `Apply` reduces an event and a state to the next state. After every command
-- `runAdvance` adds the events that the server itself drives: a hand begins, streets are dealt,
-- actions start and time out, a hand ends with or without a showdown. Pots, rake and hand
-- evaluation are pure functions that the end of a hand calls, and a dealer gives the cards. A session
-- owns the state of a table: it looks a command up by its id, lets the engine compute the events,
-- numbers them after the log, stores them and then applies them. The lobby loads a table from its
-- latest snapshot and the events after it, and seats a player, or lets one leave, in one transaction
-- with the user's balance. A user earns chips by reporting steps.
--
-- The files.
-- - Proto (States, Settings, Events, Commands): the messages of proto/poker/v1. An enum or a oneof
--   is a data type, a message a record. Absent are fields that no code of these packages reads.
-- - Players: the Go map of players as an association list. Its order stands for the order in which
--   Go walks the map, which is not specified.
-- - Apply (Order, Seats, Street, Betting, Pots): internal/engine/apply.go. `apply_event` is the type
--   switch of `Apply`, `apply` the whole function, `apply_all` is `applyAll`.
-- - Rejection, Validate (Require, Actions, Sessions, Showdown): internal/engine/rejection.go,
--   validate.go and the three validate_*.go. A check is a value of `Checked`, and an early return a
--   bind. `require_action` is the sequence of checks that the six action validators share.
-- - Commands (Build): `commandEvents` and `buildCommandEvents` of internal/engine/handler.go.
-- - Pot (Entries, Rake): internal/engine/pot.go.
-- - Cards (Deck, Dealer): internal/deck/deck.go and internal/engine/dealer.go. The interface Dealer
--   is a record of operations on a state of its own.
-- - Eval (Rank, Groups, Five, Best): internal/engine/eval.go.
-- - Advance (Monad, Active, Start, Ending, Hand, Idle): internal/engine/advance.go, with
--   `run_advance` and `handle_command` for `runAdvance` and `HandleCommand` of handler.go.
-- - Storage: internal/store over PostgreSQL. Db holds the tables of db/migrations; EventQueries,
--   UserQueries and StepQueries the SQL of internal/store/pgstore; Io a call that may fail, and
--   `WithTx`; Events, Tables, Accounts and Steps the methods of store.go and users.go; Env what comes
--   from outside: the wire format, ids, the clock, and which calls fail.
-- - Lobby (Loading, Seating, Tables): internal/engine/lobby.go and internal/lobby/join_leave.go.
-- - Session (Stamping, Process, Loop): internal/engine/session.go. `turn` is one turn of the loop of
--   `run`: a command out of the inbox, or an expired deadline.
-- - Router: internal/engine/router.go. Server.Lobby: `JoinTable` and `LeaveTable` of
--   internal/server/server.go.
-- The other files of Storage, Lobby, Session, Router and Server hold their lemmas and theorems, and
-- so do Players.Laws, Chips, Pot.Total, Pot.RakeBounds, Streets, Legal, Rounds, Showdown and
-- Decks; Tests holds the examples. Prelude holds what they share: Boolean tests, lists, sorting,
-- int64 arithmetic and the decimal text of a number.
--
-- The choices. An int64, int32 or uint64 is a natural number below 2 ^ 64 or 2 ^ 32 that stands for
-- the bits: sums, differences and products wrap round as in Go, and the signed order is the order
-- after 2 ^ 63 is added. Quotients truncate towards zero. `sort.Slice` is a stable insertion sort,
-- one of the orders that Go may give. Clones are values, so `Apply` does not share state with its
-- argument. A read that would fault on a nil hand or player gives nothing; the checks before it rule
-- the fault out. Times are natural numbers of a unit that the model leaves open, with none for the
-- zero time. Random numbers (`rand`), the fresh ids of hands (`hand_ids`), the clock (`now`) and the
-- dealer are arguments.
--
-- The store is a world of rows: what a transaction sees, what is committed, and a count of the
-- calls to the outside, each of which may fail as the argument `fault` says. A transaction's
-- writes are committed at its end or not at all, a statement that fails changes no row, and NOW()
-- is the clock at the call. Two things are simpler than in PostgreSQL: a COMMIT that fails has
-- rolled back, though its outcome may be unknown to the client; and the code may go on with a
-- transaction after a statement that failed, where PostgreSQL refuses every further statement. One
-- call follows the other: what another process does in between shows only in the world that a
-- theorem starts from. The text of an error is its constant part.
--
-- Bounds and fuel. `run_advance` has the 64 rounds of the source. `best_hand` walks the combinations
-- on a fuel of 21: two hole cards and at most five board cards have 21 combinations of five, of
-- which 20 follow the first. Every other loop is structural.
-- `LoadState` has a round for every row of the log and one more, which is proved to be enough.
--
-- Not modelled: the goroutines, channels and timers of a session (`NewSession`, `Submit`, `Close`,
-- when a timer is armed) and of the router, the list and the search of table configs, the user
-- service and tokens (internal/user, internal/auth), the other requests of the servers
-- (internal/server, cmd/server) and the configuration: they are transport, concurrency and wiring
-- around the parts above. Absent from the tables are the foreign keys and the columns that no query reads back.
pub mod Prelude
pub mod Proto
pub mod Players
pub mod Apply
pub mod Chips
pub mod Rejection
pub mod Validate
pub mod Commands
pub mod Pot
pub mod Cards
pub mod Eval
pub mod Advance
pub mod Streets
pub mod Legal
pub mod Rounds
pub mod Showdown
pub mod Decks
pub mod Storage
pub mod Lobby
pub mod Session
pub mod Router
pub mod Server
mod Tests
