-- ===== src/Proto/Events.antt =====
-- proto/poker/v1/events.proto: one constructor for each case of the oneof, its arguments the
-- message's fields in order. `event_unset` is an envelope with no event.
use pace_poker.Prelude.{Bool, ℕ, String, Option, none, List, Int32, Int64}
use pace_poker.Proto.Settings.{HandPhase, CashGameConfig}

pub data Event : Type 0 where
  event_unset : Event
  table_created : Option CashGameConfig → Event
  table_closed : String → Event
  table_paused : String → Event
  table_resumed : Event
  seat_reserved : String → Int32 → Option ℕ → Event
  seat_reservation_cancelled : String → Int32 → String → Event
  player_joined : String → String → Int32 → Int64 → Event
  player_left : String → Int64 → String → Event
  player_sat_out : String → Event
  player_sat_in : String → Event
  player_disconnected : String → Event
  player_reconnected : String → Event
  player_kicked : String → String → Event
  waiting_list_joined : String → Int32 → Event
  waiting_list_left : String → Event
  seat_changed : String → Int32 → Int32 → Event
  stack_topped_up : String → Int64 → Int64 → Event
  auto_rebuy_triggered : String → Int64 → Int64 → Event
  hand_started : String → Int64 → String → String → String → Int64 → Int64 → Event
  -- player, amount, is_small_blind, is_big_blind, is_dead_blind
  blind_posted : String → Int64 → Bool → Bool → Bool → Event
  ante_posted : String → Int64 → Event
  straddle_posted : String → Int64 → Event
  hole_cards_dealt : String → Event
  hole_cards_revealed : String → ℕ → ℕ → Event
  flop_dealt : ℕ → ℕ → ℕ → Event
  turn_dealt : ℕ → Event
  river_dealt : ℕ → Event
  run_it_twice_agreed : List String → Event
  second_board_dealt : ℕ → ℕ → Event
  player_folded : String → Event
  player_checked : String → Event
  player_called : String → Int64 → Event
  player_bet : String → Int64 → Event
  player_raised : String → Int64 → Int64 → Event
  player_all_in : String → Int64 → Event
  player_showed_cards : String → ℕ → ℕ → Event
  player_mucked_cards : String → Event
  action_started : String → Option Int64 → Option ℕ → Event
  time_bank_used : String → Option Int64 → Option Int64 → Event
  player_timed_out : String → String → Event
  betting_round_ended : HandPhase → Int64 → Event
  side_pot_created : Int64 → List String → Event
  showdown_reached : List String → Event
  pot_awarded : Int64 → List String → List ℕ → String → Event
  rake_charged : Int64 → Event
  hand_ended : Int64 → List (String × Int64) → Event
  buy_in_requested : String → Int64 → Event
  buy_in_completed : String → Int64 → Event
  buy_in_failed : String → String → Event
  cash_out_requested : String → Event
  cash_out_completed : String → Int64 → Event
  chat_message_sent : String → String → Event
  player_chat_muted : String → Option Int64 → String → Event
  player_emote_sent : String → String → Event
  -- command_id, reason, code
  command_rejected : String → String → String → Event
  command_accepted : String → Event

pub record GameEvent : Type 0 where
  pub game_id : String
  pub sequence : ℕ
  pub occurred_at : Option ℕ
  pub caused_by_command_id : String
  pub state_version : Int64
  pub event : Event

-- The literal `&pb.GameEvent{Event: e}`: every other field is zero.
abbrev pub bare : Event → GameEvent
bare e = record {
  game_id = "";
  sequence = 0;
  occurred_at = none;
  caused_by_command_id = "";
  state_version = 0;
  event = e;
}
