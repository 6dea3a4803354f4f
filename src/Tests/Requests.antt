-- ===== src/Tests/Requests.antt =====
-- Requests for the lobby and the sessions of the router, at the database of the examples.
use pace_poker.Prelude.{ℕ, Bool, false, some, [], ◌∷◌, ◌≡◌, refl, arith}
use pace_poker.Proto.{GameState}
use pace_poker.Cards.Dealer.{FixedDealer}
use pace_poker.Storage.Errors.{is_err}
use pace_poker.Storage.Io.{done, W, with_tx}
use pace_poker.Storage.EventQueries.{
  find_event_by_command_id, latest_snapshot, get_events_for_game, append_game_event,
}
use pace_poker.Storage.Events.{
  find_by_command, get_events, unmarshal_event_rows, append_event, event_to_params,
}
use pace_poker.Storage.UserQueries.{debit_balance_row}
use pace_poker.Storage.Accounts.{debit_user_balance}
use pace_poker.Storage.Tables.{get_latest_snapshot, unmarshal_snapshot}
use pace_poker.Lobby.Loading.{load_state, load_pages, build_player_joined_event}
use pace_poker.Lobby.Seating.{find_player_by_user_id, select_seat}
use pace_poker.Lobby.Tables.{
  join_table, existing_event, answer_join, new_join, check_join, seat_player,
}
use pace_poker.Router.{Sessions, session_of, invalidate, get_or_load, fresh_session}
use pace_poker.Router.Fresh.{get_or_load-invalidate}
use pace_poker.Server.Lobby.{
  JoinTableCommand, Code, status_of, Status, Reply, refused, replied, handle_join_table, retry,
  parse_or_gen_uuid, map_lobby_error,
}
use pace_poker.Server.Joined.{handle_join_table-reloads}
use pace_poker.Server.Refused.{handle_join_table-refused}
use pace_poker.Tests.{table}
use pace_poker.Tests.Store.{calm, value_or}
use pace_poker.Tests.Lobby.{quiet_table, start}

abbrev dealer : FixedDealer
dealer = record { cards = []; pos = 0 }

-- The session in memory still holds the table of another example.
abbrev in_memory : Sessions FixedDealer
in_memory = (1, record { state = table; dealer = dealer; closed = false }) ∷ []

loads_first : load_state calm 1 start ≡ (done (quiet_table, 1), record start { tick = 2 })
unfolding load_state load_pages get_latest_snapshot latest_snapshot unmarshal_snapshot get_events
    get_events_for_game unmarshal_event_rows
loads_first = refl

get_or_load-invalidate_example :
    ((get_or_load calm 1 dealer (invalidate 1 in_memory) start).0
      ≡ (done (fresh_session calm dealer quiet_table), record start { tick = 2 }))
    × (session_of 1 (get_or_load calm 1 dealer (invalidate 1 in_memory) start).1
        ≡ some (fresh_session calm dealer quiet_table))
    × (session_of 5 (get_or_load calm 1 dealer (invalidate 1 in_memory) start).1
        ≡ session_of 5 in_memory)
get_or_load-invalidate_example =
    get_or_load-invalidate calm 1 5 dealer in_memory quiet_table 1 start (record start { tick = 2 })
      (omega arith) loads_first

abbrev never : ℕ → Bool
never t = false

-- A buy-in below the minimum of the table.
abbrev small_request : JoinTableCommand
small_request = record { command_id = "first"; game_id = "table"; seat = 0; buy_in = 50 }

abbrev status_given : Reply GameState → Status
status_given (refused s) = s
status_given (replied a) = status_of Code.internal ""

abbrev refusal_status : Status
refusal_status =
    status_given (handle_join_table calm never (some 2) small_request in_memory start).0.0

abbrev after_request : W calm
after_request = (handle_join_table calm never (some 2) small_request in_memory start).0.1

server_refuses :
    handle_join_table calm never (some 2) small_request in_memory start
    ≡ ((refused refusal_status, after_request), in_memory)
unfolding handle_join_table retry parse_or_gen_uuid map_lobby_error join_table with_tx
    existing_event find_by_command find_event_by_command_id is_err answer_join new_join load_state
    load_pages get_latest_snapshot latest_snapshot unmarshal_snapshot get_events get_events_for_game
    unmarshal_event_rows check_join find_player_by_user_id
server_refuses = refl

handle_join_table-refused_example : (after_request.base ≡ start.base) × (in_memory ≡ in_memory)
handle_join_table-refused_example =
    handle_join_table-refused calm never (some 2) small_request in_memory in_memory start
      after_request refusal_status server_refuses

abbrev request : JoinTableCommand
request = record small_request { buy_in = 200 }

abbrev state_given : Reply GameState → GameState
state_given (replied s) = s
state_given (refused s) = quiet_table

abbrev answered : GameState
answered = state_given (handle_join_table calm never (some 2) request in_memory start).0.0

abbrev after_answer : W calm
after_answer = (handle_join_table calm never (some 2) request in_memory start).0.1

server_replies :
    handle_join_table calm never (some 2) request in_memory start
    ≡ ((replied answered, after_answer), [])
unfolding handle_join_table retry parse_or_gen_uuid invalidate join_table with_tx existing_event
    find_by_command find_event_by_command_id is_err answer_join new_join load_state load_pages
    get_latest_snapshot latest_snapshot unmarshal_snapshot get_events get_events_for_game
    unmarshal_event_rows check_join find_player_by_user_id select_seat seat_player
    debit_user_balance debit_balance_row build_player_joined_event append_event event_to_params
    append_game_event
server_replies = refl

abbrev reloaded : GameState
reloaded = (value_or (quiet_table, 0) (load_state calm 1 after_answer).0).0

abbrev after_reload : W calm
after_reload = (load_state calm 1 after_answer).1

reloads : load_state calm 1 after_answer ≡ (done (reloaded, 2), after_reload)
unfolding handle_join_table retry parse_or_gen_uuid invalidate join_table with_tx existing_event
    find_by_command find_event_by_command_id is_err answer_join new_join load_state load_pages
    get_latest_snapshot latest_snapshot unmarshal_snapshot get_events get_events_for_game
    unmarshal_event_rows check_join find_player_by_user_id select_seat seat_player
    debit_user_balance debit_balance_row build_player_joined_event append_event event_to_params
    append_game_event
reloads = refl

handle_join_table-reloads_example :
    (get_or_load calm 1 dealer [] after_answer).0
    ≡ (done (fresh_session calm dealer reloaded), after_reload)
handle_join_table-reloads_example =
    handle_join_table-reloads calm never 1 (some 2) request dealer in_memory [] start after_answer
      after_reload answered reloaded 2 refl server_replies reloads
