-- ===== src/Tests/Lobby.antt =====
-- A join and a departure, at the database of the examples.
use pace_poker.Prelude.{lt32, Int32, true, none, some, [], ◌∷◌, ◌++◌, ◌≡◌, refl, arith, add64}
use pace_poker.Proto.{GameState, GameEvent, GameStatus, Event}
use pace_poker.Chips.Account.{chips}
use pace_poker.Storage.Errors.{Err, sentinel, no_rows, table_full, is_err}
use pace_poker.Storage.Db.{EventRow}
use pace_poker.Storage.Io.{done, failed, W, next, with_tx}
use pace_poker.Storage.EventQueries.{
  find_event_by_command_id, latest_snapshot, get_events_for_game, append_game_event,
}
use pace_poker.Storage.UserQueries.{debit_balance_row}
use pace_poker.Storage.Events.{
  find_by_command, get_events, unmarshal_event_rows, append_event, event_to_params,
}
use pace_poker.Storage.Tables.{get_latest_snapshot, unmarshal_snapshot}
use pace_poker.Storage.Accounts.{debit_user_balance}
use pace_poker.Storage.Balances.{balance_of}
use pace_poker.Lobby.Loading.{load_state, load_pages, build_player_joined_event}
use pace_poker.Lobby.Seating.{is_taken, select_seat, find_player_by_user_id}
use pace_poker.Lobby.Tables.{
  JoinTableInput, JoinTableResult, join_table, existing_event, answer_join, new_join, check_join,
  seat_player,
}
use pace_poker.Lobby.Seats.{IsChoice, select_seat-IsChoice, select_seat-full}
use pace_poker.Lobby.Conserve.{join_table-conserves}
use pace_poker.Lobby.Atomic.{join_table-failed, join_table-replayed}
use pace_poker.Tests.{table, settings}
use pace_poker.Tests.Store.{Blob, calm, db_of, world_of, value_or, error_or}

abbrev pub quiet_table : GameState
quiet_table = record table {
  game_id = "table";
  current_hand = none;
  status = GameStatus.waiting;
  version = 1;
}

abbrev pub start : W calm
start = world_of (db_of quiet_table)

abbrev join_input : JoinTableInput
join_input = record { command_id = 3; game_id = 1; user_id = 2; seat = 0; buy_in = 200 }

abbrev no_join : JoinTableResult
no_join = record { game_state = quiet_table; new_sequence = 0; user_new_balance = 0 }

found_nothing : existing_event calm 3 1 (next calm start) ≡ (done none, record start { tick = 2 })
unfolding existing_event find_by_command find_event_by_command_id is_err
found_nothing = refl

loads :
    load_state calm 1 (record start { tick = 2 })
    ≡ (done (quiet_table, 1), record start { tick = 4 })
unfolding load_state load_pages get_latest_snapshot latest_snapshot unmarshal_snapshot get_events
    get_events_for_game unmarshal_event_rows
loads = refl

abbrev joined : JoinTableResult
joined = value_or no_join (join_table calm join_input start).0

abbrev after_join : W calm
after_join = (join_table calm join_input start).1

joins : join_table calm join_input start ≡ (done joined, after_join)
unfolding join_table with_tx existing_event find_by_command find_event_by_command_id is_err
    answer_join new_join load_state load_pages get_latest_snapshot latest_snapshot
    unmarshal_snapshot get_events get_events_for_game unmarshal_event_rows check_join
    find_player_by_user_id select_seat seat_player debit_user_balance debit_balance_row
    build_player_joined_event append_event event_to_params append_game_event
joins = refl

join_table-conserves_example :
    (add64 (chips joined.game_state) (balance_of 2 after_join.base)
      ≡ add64 (chips quiet_table) (balance_of 2 start.base))
    × (joined.user_new_balance ≡ balance_of 2 after_join.base)
    × ((row : EventRow Blob) × (after_join.base.events ≡ start.base.events ++ row ∷ []))
join_table-conserves_example =
    join_table-conserves calm join_input quiet_table 1 start (record start { tick = 2 }) after_join
      (record start { tick = 4 }) joined refl found_nothing loads refl joins

-- A buy-in below the minimum.
abbrev small_join : JoinTableInput
small_join = record join_input { buy_in = 50 }

abbrev refusal : Err
refusal = error_or (sentinel no_rows) (join_table calm small_join start).0

abbrev after_refusal : W calm
after_refusal = (join_table calm small_join start).1

join_refused : join_table calm small_join start ≡ (failed refusal, after_refusal)
unfolding join_table with_tx existing_event find_by_command find_event_by_command_id is_err
    answer_join new_join load_state load_pages get_latest_snapshot latest_snapshot
    unmarshal_snapshot get_events get_events_for_game unmarshal_event_rows check_join
join_refused = refl

join_table-failed_example : after_refusal.base ≡ start.base
join_table-failed_example =
    join_table-failed calm small_join start after_refusal refusal join_refused

-- The same command once more, after the join.
abbrev join_event : GameEvent
join_event = record {
  game_id = "table";
  sequence = 2;
  occurred_at = some 6;
  caused_by_command_id = "first";
  state_version = 2;
  event = Event.player_joined "dave" "dave" 4 200;
}

join_found :
    existing_event calm 3 1 (next calm after_join)
    ≡ (done (some join_event), record after_join { tick = 11 })
unfolding join_table with_tx existing_event find_by_command find_event_by_command_id is_err
    answer_join new_join load_state load_pages get_latest_snapshot latest_snapshot
    unmarshal_snapshot get_events get_events_for_game unmarshal_event_rows check_join
    find_player_by_user_id select_seat seat_player debit_user_balance debit_balance_row
    build_player_joined_event append_event event_to_params append_game_event
join_found = refl

committed : after_join.view ≡ after_join.base
unfolding join_table with_tx existing_event find_by_command find_event_by_command_id is_err
    answer_join new_join load_state load_pages get_latest_snapshot latest_snapshot
    unmarshal_snapshot get_events get_events_for_game unmarshal_event_rows check_join
    find_player_by_user_id select_seat seat_player debit_user_balance debit_balance_row
    build_player_joined_event append_event event_to_params append_game_event
committed = refl

join_table-replayed_example : (join_table calm join_input after_join).1.base ≡ after_join.base
join_table-replayed_example =
    join_table-replayed calm join_input after_join (record after_join { tick = 11 }) join_event
      committed join_found

chosen : select_seat quiet_table 0 ≡ done 4
unfolding select_seat
chosen = refl

abbrev fourth : Int32
fourth = 4

select_seat-IsChoice_example : IsChoice quiet_table 0 fourth × (lt32 0 0 ≡ true → fourth ≡ 0)
select_seat-IsChoice_example =
    select_seat-IsChoice quiet_table 0 fourth (omega arith) (omega arith) chosen

-- With three seats, the three players take them all.
abbrev full_table : GameState
full_table = record quiet_table { config = some (record settings { max_seats = 3 }) }

no_seat : select_seat full_table 0 ≡ failed (sentinel table_full)
unfolding select_seat
no_seat = refl

select_seat-full_example : is_taken full_table 2 ≡ true
select_seat-full_example =
    select_seat-full full_table (sentinel table_full) 2 (omega arith) no_seat (omega arith)
      (omega arith)
