-- ===== src/Lobby/Tables.antt =====
-- `JoinTable` and `LeaveTable` of internal/lobby/join_leave.go.
use pace_poker.Prelude.{
  ℕ, Int32, Int64, String, Bool, true, false, ◌&&◌, not, Option, none, some, List, [], ◌∷◌, add64,
  lt64, ◌==◌, if◌then◌else◌,
}
use pace_poker.Proto.{
  GameState, GameStatus, CashGameConfig, PlayerState, GameEvent, Event, finished, closed,
  player_left,
}
use pace_poker.Players.{get}
use pace_poker.Apply.{apply, apply_all}
use pace_poker.Storage.Errors.{
  Err, sentinel, wrap, noted, is_err, not_found, insufficient_balance, insufficient_funds,
  game_closed, buy_in_out_of_range, already_seated, user_not_at_table,
}
use pace_poker.Storage.Env.{Env, Uuid}
use pace_poker.Storage.Io.{
  Outcome, done, failed, Io, ◌>>=◌, ◌>>◌, pure, fail, or_fail, attempt, lift, lift_option, Handle,
  with_tx,
}
use pace_poker.Storage.Events.{append_event, append_events, find_by_command}
use pace_poker.Storage.Accounts.{
  UserSnapshot, get_user_snapshot, debit_user_balance, credit_user_balance,
}
use pace_poker.Lobby.Loading.{
  load_state, build_player_joined_event, build_player_left_event, build_auto_fold_event,
}
use pace_poker.Lobby.Seating.{find_player_by_user_id, select_seat}

pub record JoinTableInput : Type 0 where
  pub command_id : Uuid
  pub game_id : Uuid
  pub user_id : Uuid
  pub seat : Int32
  pub buy_in : Int64

pub record JoinTableResult : Type 0 where
  pub game_state : GameState
  pub new_sequence : ℕ
  pub user_new_balance : Int64

pub record LeaveTableInput : Type 0 where
  pub command_id : Uuid
  pub game_id : Uuid
  pub user_id : Uuid

pub record LeaveTableResult : Type 0 where
  pub game_state : GameState
  pub cash_out_amount : Int64
  pub user_new_balance : Int64

abbrev pub is_over : GameStatus → Bool
is_over finished = true
is_over closed = true
is_over _ = false

abbrev pub min_buy_in_of : Option CashGameConfig → Int64
min_buy_in_of none = 0
min_buy_in_of (some c) = c.min_buy_in

abbrev pub max_buy_in_of : Option CashGameConfig → Int64
max_buy_in_of none = 0
max_buy_in_of (some c) = c.max_buy_in

-- Steps 3 to 6 of `JoinTable`: the table takes players, the buy-in is in range, the user (a text) is
-- not seated, and a seat is free.
unfoldable pub check_join : GameState → Int64 → Int32 → String → Outcome Int32
check_join s buy_in seat user =
    if is_over s.status
    then failed (sentinel game_closed)
    else if lt64 buy_in (min_buy_in_of s.config)
    then failed (noted (sentinel buy_in_out_of_range) "below the minimum")
    else if lt64 0 (max_buy_in_of s.config) && lt64 (max_buy_in_of s.config) buy_in
    then failed (noted (sentinel buy_in_out_of_range) "above the maximum")
    else elim (find_player_by_user_id s user) [
      | some _ ↦ failed (sentinel already_seated)
      | none ↦ select_seat s seat
    ]

-- What a failed debit is reported as.
abbrev pub or_no_funds : Err → Err
or_no_funds e =
    if is_err e insufficient_balance
    then sentinel insufficient_funds
    else if is_err e not_found
    then sentinel not_found
    else wrap "debit user balance" e

abbrev pub or_no_game : Err → Err
or_no_game e = if is_err e not_found then sentinel not_found else wrap "load game state" e

-- `existing.GetPlayerLeft().GetCashOutAmount()`.
abbrev pub cash_out_of : Event → Int64
cash_out_of (player_left p x r) = x
cash_out_of _ = 0

-- The getters of a player, that may be nil.
abbrev pub stack_or_zero : Option PlayerState → Int64
stack_or_zero none = 0
stack_or_zero (some p) = p.stack

abbrev pub folded_or_false : Option PlayerState → Bool
folded_or_false none = false
folded_or_false (some p) = p.is_folded

module _ (env : Env) where
  -- The idempotency check: the event of this command, if there is one.
  unfoldable pub existing_event : Uuid → Uuid → Io env.Bytes (Option GameEvent)
  existing_event cmd game =
      if cmd == 0
      then pure none
      else attempt (find_by_command env cmd game) >>= λ r. elim r [
        | done e ↦ pure (some e)
        | failed e ↦ if is_err e not_found then pure none else fail (wrap "idempotency check" e)
      ]

  -- The state of the table and the balance, for a command that was processed before.
  unfoldable pub replayed : Uuid → Uuid → Io env.Bytes (GameState × UserSnapshot)
  replayed game user = do
    loaded ← or_fail (wrap "load state for idempotency replay") (load_state env game)
    snap ← or_fail (wrap "user snapshot for idempotency replay") (get_user_snapshot env user)
    pure (loaded.0, snap)

  abbrev pub replay_join : JoinTableInput → GameEvent → Io env.Bytes JoinTableResult
  replay_join input existing = do
    r ← replayed input.game_id input.user_id
    pure (record {
      game_state = r.0;
      new_sequence = existing.sequence;
      user_new_balance = r.1.chip_balance;
    })

  -- Steps 7 to 9.
  unfoldable pub seat_player :
      Handle → JoinTableInput → GameState → ℕ → Int32 → Io env.Bytes JoinTableResult
  seat_player h input s latest seat = do
    snap ← or_fail or_no_funds (debit_user_balance env h input.user_id input.buy_in)
    let user = env.uuid_text input.user_id
    evt ←
        build_player_joined_event env input.game_id (add64 latest 1) input.command_id user user seat
          input.buy_in (add64 s.version 1)
    append_event env h evt
    pure (record {
      game_state = apply s evt;
      new_sequence = add64 latest 1;
      user_new_balance = snap.chip_balance;
    })

  -- Steps 2 to 9.
  unfoldable pub new_join : Handle → JoinTableInput → Io env.Bytes JoinTableResult
  new_join h input = do
    loaded ← or_fail or_no_game (load_state env input.game_id)
    seat ← lift (check_join loaded.0 input.buy_in input.seat (env.uuid_text input.user_id))
    seat_player h input loaded.0 loaded.1 seat

  unfoldable pub answer_join :
      Handle → JoinTableInput → Option GameEvent → Io env.Bytes JoinTableResult
  answer_join h input (some e) = replay_join input e
  answer_join h input none = new_join h input

  -- `JoinTable`.
  unfoldable pub join_table : JoinTableInput → Io env.Bytes JoinTableResult
  join_table input =
      with_tx env
        λ h. do found ← existing_event input.command_id input.game_id; answer_join h input found

  abbrev pub replay_leave : LeaveTableInput → GameEvent → Io env.Bytes LeaveTableResult
  replay_leave input existing = do
    r ← replayed input.game_id input.user_id
    pure (record {
      game_state = r.0;
      cash_out_amount = cash_out_of existing.event;
      user_new_balance = r.1.chip_balance;
    })

  -- The fold that a player in a hand leaves behind, then the departure.
  unfoldable pub leave_events :
      LeaveTableInput → GameState → ℕ → String → Option PlayerState → Io env.Bytes (List GameEvent)
  leave_events input s latest player p = do
    let seq = add64 latest 1
    let version = add64 s.version 1
    let in_hand = elim s.current_hand as (λ _. Bool) [ none ↦ false | some _ ↦ true ]
    if in_hand && not (folded_or_false p)
        then (do
          folds ← build_auto_fold_event env input.game_id seq input.command_id player version
          leaves ←
              build_player_left_event env input.game_id (add64 seq 1) input.command_id player
                (stack_or_zero p) (add64 version 1)
          pure (folds ∷ leaves ∷ []))
        else (do
          leaves ←
              build_player_left_event env input.game_id seq input.command_id player
                (stack_or_zero p) version
          pure (leaves ∷ []))

  -- Step 5.
  unfoldable pub pay_out : Handle → Uuid → Int64 → Io env.Bytes UserSnapshot
  pay_out h user cash_out =
      if lt64 0 cash_out
      then or_fail (wrap "credit user balance") (credit_user_balance env h user cash_out)
      else or_fail (wrap "get user snapshot") (get_user_snapshot env user)

  -- Steps 5 and 6, for the events of step 3.
  unfoldable pub pay_player :
      Handle → LeaveTableInput → GameState → Int64 → List GameEvent → Io env.Bytes LeaveTableResult
  pay_player h input s cash_out events = do
    snap ← pay_out h input.user_id cash_out
    pure (record {
      game_state = apply_all s events;
      cash_out_amount = cash_out;
      user_new_balance = snap.chip_balance;
    })

  -- Steps 3 to 6.
  unfoldable pub unseat_player :
      Handle → LeaveTableInput → GameState → ℕ → String → Io env.Bytes LeaveTableResult
  unseat_player h input s latest player = do
    let p : Option PlayerState = get player s.players
    events ← leave_events input s latest player p
    append_events env events
    pay_player h input s (stack_or_zero p) events

  -- Steps 2 to 6.
  unfoldable pub new_leave : Handle → LeaveTableInput → Io env.Bytes LeaveTableResult
  new_leave h input = do
    loaded ← or_fail (wrap "load game state") (load_state env input.game_id)
    player ←
        lift_option (sentinel user_not_at_table)
          (find_player_by_user_id loaded.0 (env.uuid_text input.user_id))
    unseat_player h input loaded.0 loaded.1 player

  unfoldable pub answer_leave :
      Handle → LeaveTableInput → Option GameEvent → Io env.Bytes LeaveTableResult
  answer_leave h input (some e) = replay_leave input e
  answer_leave h input none = new_leave h input

  -- `LeaveTable`.
  unfoldable pub leave_table : LeaveTableInput → Io env.Bytes LeaveTableResult
  leave_table input =
      with_tx env
        λ h. do found ← existing_event input.command_id input.game_id; answer_leave h input found
