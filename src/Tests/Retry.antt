-- ===== src/Tests/Retry.antt =====
-- A call that the client sends twice, at the table of the examples.
use pace_poker.Prelude.{
  ◌+◌, ◌<◌, List, [], ◌∷◌, ◌++◌, length, keep, ◌≡◌, refl, arith, add64, h64, eq_iff,
}
use pace_poker.Proto.{GameEvent, Event, PlayerCommand, bare, call}
use pace_poker.Chips.Account.{chips, flow}
use pace_poker.Cards.Dealer.{FixedDealer, fixed_dealer}
use pace_poker.Storage.Db.{EventRow}
use pace_poker.Lobby.Replay.{Holds}
use pace_poker.Storage.Io.{Outcome, done, W, next}
use pace_poker.Session.Process.{process}
use pace_poker.Session.Loop.{envelope, turn}
use pace_poker.Session.Repeat.{turn-repeats}
use pace_poker.Tests.Store.{Blob, calm, codec_table, value_or}
use pace_poker.Tests.Loading.{stored_table, empty_log}
use pace_poker.Tests.Session.{folding, no_ids}
use pace_poker.Session.Process.{process_new, answer_command}
use pace_poker.Advance.{handle_command, run_advance, advance_loop, advance}
use pace_poker.Commands.{command_events}
use pace_poker.Validate.{validate}
use pace_poker.Validate.Actions.{validate_call, require_action, players_in_hand}
use pace_poker.Validate.Require.{
  require_active_game, require_hand_in_progress, require_seated, require_can_act,
  require_actors_turn, call_amount,
}
use pace_poker.Commands.Build.{build_command_events, build_call}
use pace_poker.Apply.{apply_all, apply, apply_event}
use pace_poker.Apply.Betting.{apply_player_called}
use pace_poker.Apply.Order.{
  others_in_order, postflop_action_order, seated_active_players_by_seats, rotate_after, rotate_from,
}
use pace_poker.Advance.Hand.{advance_hand, advance_street, deal_turn, start_next_action}
use pace_poker.Advance.Active.{non_folded_count, non_folded_player_ids, active_players}
use pace_poker.Cards.Deck.{draw}
use pace_poker.Apply.Street.{apply_betting_round_ended, apply_turn_dealt, reset_street_state}
use pace_poker.Session.Stamping.{lookup_by_command_id, persist, stamp_events, stamp_from}
use pace_poker.Storage.Events.{
  find_by_command, get_latest_sequence, append_events, params_of, event_to_params,
}
use pace_poker.Storage.EventQueries.{
  of_game, find_event_by_command_id, latest_sequence, append_game_events, append_game_event,
}
use pace_poker.Storage.Errors.{is_err}

abbrev calling : PlayerCommand
calling = record folding { payload = call 10 }

abbrev deck : FixedDealer
deck = record { cards = 40 ∷ 41 ∷ []; pos = 0 }

-- The turn has been dealt.
abbrev deck_used : FixedDealer
deck_used = record deck { pos = 2 }

abbrev first_answer : Outcome (List GameEvent) × W calm
first_answer = (process calm fixed_dealer no_ids 1 stored_table "alice" calling deck empty_log).0

abbrev first_of : List GameEvent → GameEvent
first_of [] = bare (Event.player_checked "alice")
first_of (e ∷ es) = e

abbrev rest_of : List GameEvent → List GameEvent
rest_of [] = []
rest_of (e ∷ es) = es

abbrev alice_called : GameEvent
alice_called = first_of (value_or [] first_answer.0)

abbrev played_on : List GameEvent
played_on = rest_of (value_or [] first_answer.0)

abbrev after_call : W calm
after_call = first_answer.1

runs_first :
    process calm fixed_dealer no_ids 1 stored_table "alice" calling deck empty_log
    ≡ ((done (alice_called ∷ played_on), after_call), deck_used)
unfolding process process_new handle_command command_events validate validate_call require_action
    require_active_game require_hand_in_progress require_seated require_can_act require_actors_turn
    call_amount build_command_events build_call apply_all apply apply_event apply_player_called
    others_in_order players_in_hand run_advance advance_loop advance advance_hand non_folded_count
    non_folded_player_ids advance_street deal_turn draw apply_betting_round_ended apply_turn_dealt
    reset_street_state postflop_action_order seated_active_players_by_seats rotate_after rotate_from
    start_next_action active_players answer_command lookup_by_command_id find_by_command
    find_event_by_command_id is_err persist stamp_events stamp_from get_latest_sequence
    latest_sequence append_events params_of event_to_params append_game_events append_game_event
runs_first = refl

carries_id : alice_called.caused_by_command_id ≡ "first"
unfolding process process_new handle_command command_events validate validate_call require_action
    require_active_game require_hand_in_progress require_seated require_can_act require_actors_turn
    call_amount build_command_events build_call apply_all apply apply_event apply_player_called
    others_in_order players_in_hand run_advance advance_loop advance advance_hand non_folded_count
    non_folded_player_ids advance_street deal_turn draw apply_betting_round_ended apply_turn_dealt
    reset_street_state postflop_action_order seated_active_players_by_seats rotate_after rotate_from
    start_next_action active_players answer_command lookup_by_command_id find_by_command
    find_event_by_command_id is_err persist stamp_events stamp_from get_latest_sequence
    latest_sequence append_events params_of event_to_params append_game_events append_game_event
carries_id = refl

few : latest_sequence 1 empty_log.view + length (alice_called ∷ played_on) < h64
unfolding process process_new handle_command command_events validate validate_call require_action
    require_active_game require_hand_in_progress require_seated require_can_act require_actors_turn
    call_amount build_command_events build_call apply_all apply apply_event apply_player_called
    others_in_order players_in_hand run_advance advance_loop advance advance_hand non_folded_count
    non_folded_player_ids advance_street deal_turn draw apply_betting_round_ended apply_turn_dealt
    reset_street_state postflop_action_order seated_active_players_by_seats rotate_after rotate_from
    start_next_action active_players answer_command lookup_by_command_id find_by_command
    find_event_by_command_id is_err persist stamp_events stamp_from get_latest_sequence
    latest_sequence append_events params_of event_to_params append_game_events append_game_event
few = omega arith

turn-repeats_example :
    (turn calm fixed_dealer no_ids 1 (envelope "alice" calling) stored_table deck empty_log
      ≡ (apply_all stored_table (alice_called ∷ played_on), deck_used, after_call))
    × ((rows : List (EventRow Blob)) × Holds calm rows (alice_called ∷ played_on)
        × (keep (of_game 1) after_call.view.events
            ≡ keep (of_game 1) empty_log.view.events ++ rows))
    × (process calm fixed_dealer no_ids 1
          (apply_all stored_table (alice_called ∷ played_on))
          "alice"
          calling
          deck_used
          after_call
        ≡ ((done (alice_called ∷ []), next calm after_call), deck_used))
    × (turn calm fixed_dealer no_ids 1
          (envelope "alice" calling)
          (apply_all stored_table (alice_called ∷ played_on))
          deck_used
          after_call
        ≡ (
          apply (apply_all stored_table (alice_called ∷ played_on)) alice_called,
          deck_used,
          next calm after_call,
        ))
    × (chips (apply (apply_all stored_table (alice_called ∷ played_on)) alice_called)
        ≡ add64
            (chips (apply_all stored_table (alice_called ∷ played_on)))
            (flow (apply_all stored_table (alice_called ∷ played_on)) alice_called.event))
turn-repeats_example =
    turn-repeats calm fixed_dealer no_ids 1 codec_table stored_table "alice" calling 3 deck
      deck_used empty_log after_call alice_called played_on (ground (arith, eq_iff "first" "")) refl
      refl few runs_first carries_id refl
