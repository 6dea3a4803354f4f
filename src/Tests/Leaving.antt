-- ===== src/Tests/Leaving.antt =====
-- A departure in the middle of a hand, at the database of the examples.
use pace_poker.Prelude.{false, none, some, List, [], ◌∷◌, ◌++◌, ◌≡◌, refl, ◌==◌, if◌then◌else◌}
use pace_poker.Proto.{GameState, GameEvent}
use pace_poker.Players.{get}
use pace_poker.Storage.Errors.{Err, sentinel, no_rows, message, is_err}
use pace_poker.Storage.Env.{Env}
use pace_poker.Storage.Db.{EventRow}
use pace_poker.Storage.Io.{done, failed, W, in_tx, next}
use pace_poker.Storage.EventQueries.{
  find_event_by_command_id, latest_snapshot, get_events_for_game, append_game_event,
  append_game_events,
}
use pace_poker.Storage.Events.{
  find_by_command, get_events, unmarshal_event_rows, append_events, event_to_params, params_of,
}
use pace_poker.Storage.Tables.{get_latest_snapshot, unmarshal_snapshot}
use pace_poker.Storage.Accounts.{credit_user_balance}
use pace_poker.Lobby.Loading.{
  load_state, load_pages, build_player_left_event, build_auto_fold_event,
}
use pace_poker.Lobby.Seating.{find_player_by_user_id}
use pace_poker.Lobby.Tables.{
  existing_event, LeaveTableInput, LeaveTableResult, leave_table, leave_events, pay_out,
}
use pace_poker.Lobby.Lost.{leave_table-loses}
use pace_poker.Tests.{table, seated}
use pace_poker.Tests.Store.{Blob, calm, env_with, db_of, world_of, value_or, error_or}

-- Dave sits at the table of the hand, with 200 chips.
abbrev dave_table : GameState
dave_table = record table {
  game_id = "table";
  version = 1;
  players = ("dave", seated "dave" 4 200 0 0 false) ∷ table.players;
  player_user_ids = ("dave", "dave") ∷ [];
}

abbrev start : W calm
start = world_of (db_of dave_table)

abbrev input : LeaveTableInput
input = record { command_id = 4; game_id = 1; user_id = 2 }

abbrev no_leave : LeaveTableResult
no_leave = record { game_state = dave_table; cash_out_amount = 0; user_new_balance = 0 }

abbrev left : LeaveTableResult
left = value_or no_leave (leave_table calm input start).0

abbrev after_leave : W calm
after_leave = (leave_table calm input start).1

dave_seated : find_player_by_user_id dave_table "dave" ≡ some "dave"
unfolding find_player_by_user_id
dave_seated = refl

-- The eleventh call of the departure is the update of the balance: it fails.
abbrev broken : Env
broken = env_with (λ t. if t == 10 then some (message "connection lost") else none)

abbrev events : List GameEvent
events =
    value_or []
      (leave_events broken input dave_table 1 "dave" (get "dave" dave_table.players)
        (record start { tick = 4 })).0

abbrev after_append : W broken
after_append = (append_events broken events (record start { tick = 6 })).1

abbrev failure : Err
failure = error_or (sentinel no_rows) (pay_out broken in_tx 2 200 after_append).0

found_nothing_yet :
    existing_event broken 4 1 (next broken start) ≡ (done none, record start { tick = 2 })
unfolding existing_event find_by_command find_event_by_command_id is_err
found_nothing_yet = refl

loads_yet :
    load_state broken 1 (record start { tick = 2 })
    ≡ (done (dave_table, 1), record start { tick = 4 })
unfolding load_state load_pages get_latest_snapshot latest_snapshot unmarshal_snapshot get_events
    get_events_for_game unmarshal_event_rows
loads_yet = refl

departs :
    leave_events broken input dave_table 1 "dave"
      (get "dave" dave_table.players)
      (record start { tick = 4 })
    ≡ (done events, record start { tick = 6 })
unfolding leave_events build_player_left_event build_auto_fold_event
departs = refl

appends : append_events broken events (record start { tick = 6 }) ≡ (done tt, after_append)
unfolding append_events params_of event_to_params append_game_events append_game_event leave_events
    build_player_left_event build_auto_fold_event
appends = refl

payment_fails :
    pay_out broken in_tx 2 200 after_append
    ≡ (failed failure, (pay_out broken in_tx 2 200 after_append).1)
unfolding pay_out credit_user_balance append_events params_of event_to_params append_game_events
    append_game_event leave_events build_player_left_event build_auto_fold_event
payment_fails = refl

leave_table-loses_example :
    ((leave_table broken input start).0 ≡ failed failure)
    × ((leave_table broken input start).1.base.balances ≡ start.base.balances)
    × ((rows : List (EventRow Blob)) × (params_of broken events ≡ done rows)
        × ((leave_table broken input start).1.base.events ≡ start.base.events ++ rows))
leave_table-loses_example =
    leave_table-loses broken input dave_table 1 "dave" events failure tt start
      (record start { tick = 2 }) (record start { tick = 4 }) (record start { tick = 6 })
      after_append (pay_out broken in_tx 2 200 after_append).1 refl found_nothing_yet loads_yet
      dave_seated departs appends payment_fails
