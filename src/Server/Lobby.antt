-- ===== src/Server/Lobby.antt =====
-- `JoinTable` and `LeaveTable` of internal/server/server.go, over the sessions of the router.
-- The user comes from the authenticated context; a status keeps its code and its text.
use pace_poker.Prelude.{
  ℕ, zero, suc, Int32, Int64, String, Bool, ◌&&◌, not, Option, none, some, str_eq, le64, lt32,
  if◌then◌else◌,
}
use pace_poker.Proto.{GameState}
use pace_poker.Storage.Errors
use pace_poker.Storage.Errors.{Err, is_err, concurrent_write}
use pace_poker.Storage.Env.{Env, Uuid}
use pace_poker.Storage.Io.{Outcome, done, failed, Io, W, next}
use pace_poker.Router.{Sessions, invalidate}
use pace_poker.Lobby.Tables.{JoinTableResult, join_table, LeaveTableResult, leave_table}

pub data Code : Type 0 where
  invalid_argument failed_precondition already_exists resource_exhausted : Code
  code_not_found unavailable internal unauthenticated : Code

pub record Status : Type 0 where
  pub code : Code
  pub text : String

abbrev pub status_of : Code → String → Status
status_of c t = record { code = c; text = t }

-- `mapLobbyError`.
unfoldable pub map_lobby_error : Err → Status
map_lobby_error e =
    if is_err e Errors.insufficient_funds
    then status_of failed_precondition "insufficient funds"
    else if is_err e Errors.seat_taken
    then status_of failed_precondition "seat already taken"
    else if is_err e Errors.buy_in_out_of_range
    then status_of invalid_argument "store: buy-in out of range"
    else if is_err e Errors.game_closed
    then status_of failed_precondition "game is not joinable"
    else if is_err e Errors.already_seated
    then status_of already_exists "user is already at this table"
    else if is_err e Errors.table_full
    then status_of resource_exhausted "table is full"
    else if is_err e Errors.user_not_at_table
    then status_of code_not_found "user is not at this table"
    else if is_err e Errors.not_found
    then status_of code_not_found "game or user not found"
    else if is_err e Errors.concurrent_write
    then status_of unavailable "concurrent write conflict; retry"
    else status_of internal "internal error"

pub data Reply (A : Type 0) : Type 0 where
  replied : A → Reply A
  refused : Status → Reply A

pub record JoinTableCommand : Type 0 where
  pub command_id : String
  pub game_id : String
  pub seat : Int32
  pub buy_in : Int64

abbrev pub retries : ℕ
retries = 2

module _ (env : Env) (cancelled : ℕ → Bool) where
  -- One more attempt after a concurrent write, unless `ctx.Err() != nil`.
  abbrev pub after_attempt : {A : Type 0} → Io env.Bytes A → Outcome A × W env → Outcome A × W env
  after_attempt again (done a, w) = (done a, w)
  after_attempt again (failed e, w) =
      if is_err e concurrent_write && not (cancelled w.tick) then again w else (failed e, w)

  -- `retryOnConcurrentWrite`, with the number of attempts after the first.
  unfoldable pub retry : {A : Type 0} → ℕ → Io env.Bytes A → Io env.Bytes A
  retry zero m w = m w
  retry (suc n) m w = after_attempt (retry n m) (m w)

  -- `parseOrGenUUID`.
  unfoldable pub parse_or_gen_uuid : String → W env → Option Uuid × W env
  parse_or_gen_uuid text w =
      if str_eq text "" then (some (env.fresh w.tick), next env w) else (env.parse_uuid text, w)

  abbrev pub reply_join :
      {S : Type 0}
      → Uuid
      → Sessions S
      → Outcome JoinTableResult × W env
      → (Reply GameState × W env) × Sessions S
  reply_join game m (done r, w) = ((replied r.game_state, w), invalidate game m)
  reply_join game m (failed e, w) = ((refused (map_lobby_error e), w), m)

  abbrev pub run_join :
      {S : Type 0}
      → JoinTableCommand
      → Uuid
      → Uuid
      → Sessions S
      → Option Uuid × W env
      → (Reply GameState × W env) × Sessions S
  run_join req game user m (none, w) =
      ((refused (status_of invalid_argument "invalid command_id"), w), m)
  run_join req game user m (some cmd, w) = reply_join game m (
      retry retries
        (join_table env (record {
          command_id = cmd;
          game_id = game;
          user_id = user;
          seat = req.seat;
          buy_in = req.buy_in;
        }))
        w)

  -- `Server.JoinTable`.
  unfoldable pub handle_join_table :
      {S : Type 0}
      → Option Uuid
      → JoinTableCommand
      → Sessions S
      → W env
      → (Reply GameState × W env) × Sessions S
  handle_join_table actor req m w = elim (env.parse_uuid req.game_id) [
    | none ↦ ((refused (status_of invalid_argument "invalid game_id"), w), m)
    | some game ↦ elim actor [
      | none ↦ ((refused (status_of unauthenticated "no authenticated user"), w), m)
      | some user ↦
          if le64 req.buy_in 0
          then ((refused (status_of invalid_argument "buy_in must be positive"), w), m)
          else if lt32 req.seat 0
          then ((refused (status_of invalid_argument "seat must be >= 0 (0 = auto)"), w), m)
          else run_join req game user m (parse_or_gen_uuid req.command_id w)
    ]
  ]

  abbrev pub reply_leave :
      {S : Type 0}
      → Uuid
      → Sessions S
      → Outcome LeaveTableResult × W env
      → (Reply Int64 × W env) × Sessions S
  reply_leave game m (done r, w) = ((replied r.cash_out_amount, w), invalidate game m)
  reply_leave game m (failed e, w) = ((refused (map_lobby_error e), w), m)

  abbrev pub run_leave :
      {S : Type 0}
      → Uuid
      → Uuid
      → Sessions S
      → Option Uuid × W env
      → (Reply Int64 × W env) × Sessions S
  run_leave game user m (none, w) =
      ((refused (status_of invalid_argument "invalid command_id"), w), m)
  run_leave game user m (some cmd, w) = reply_leave game m (
      retry retries (leave_table env (record { command_id = cmd; game_id = game; user_id = user }))
        w)

  -- `Server.LeaveTable`: the game's id and the command's.
  unfoldable pub handle_leave_table :
      {S : Type 0}
      → Option Uuid
      → String
      → String
      → Sessions S
      → W env
      → (Reply Int64 × W env) × Sessions S
  handle_leave_table actor game_id command_id m w = elim (env.parse_uuid game_id) [
    | none ↦ ((refused (status_of invalid_argument "invalid game_id"), w), m)
    | some game ↦ elim actor [
      | none ↦ ((refused (status_of unauthenticated "no authenticated user"), w), m)
      | some user ↦ run_leave game user m (parse_or_gen_uuid command_id w)
    ]
  ]
