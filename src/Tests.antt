-- ===== src/Tests.antt =====
-- The examples that the theorems are applied to: a table of three in the middle of a hand
-- (internal/engine).
mod Betting
mod Ending
mod Hands
mod Payout
mod Progress
mod Store
mod Lobby
mod Leaving
mod Loading
mod Session
mod Requests
mod Reports
mod Retry
use pace_poker.Prelude.{
  ℕ, zero, suc, Int64, String, Bool, true, false, Option, none, some, List, [], ◌∷◌,
}
use pace_poker.Proto.{
  GameStatus, HandPhase, SeatStatus, no_limit, CashGameConfig, PlayerState, HandState, GameState,
  PlayerCommand, Payload,
}

-- A player in a seat: id, seat, stack, current bet, chips committed in the hand, folded.
abbrev pub seated : String → ℕ → ℕ → ℕ → ℕ → Bool → PlayerState
seated pid seat stack bet committed folded = record {
  player_id = pid;
  seat = seat;
  seat_status = SeatStatus.occupied;
  stack = stack;
  current_bet = bet;
  total_committed_this_hand = committed;
  is_folded = folded;
  is_all_in = false;
  is_sitting_out = false;
  time_bank_remaining = none;
  must_post_blind = false;
  disconnected_at = none;
  hole_card_1 = some 12;
  hole_card_2 = some 25;
}

abbrev pub settings : CashGameConfig
settings = record {
  structure = no_limit;
  max_seats = 6;
  min_players_to_start = 2;
  small_blind = 5;
  big_blind = 10;
  ante = 0;
  bb_ante = 0;
  max_raises_per_street = 0;
  uncap_heads_up = false;
  min_buy_in = 100;
  max_buy_in = 1000;
  rake_bps = 500;
  rake_cap = 3;
  action_timeout = some 30;
  allow_run_it_twice = false;
  allow_chat = true;
}

abbrev pub alice : PlayerState
alice = seated "alice" 1 100 0 20 false

abbrev pub bob : PlayerState
bob = seated "bob" 2 80 10 30 false

abbrev pub carol : PlayerState
carol = seated "carol" 3 0 0 40 true

-- The flop, with 10 to call for alice, who is to act.
abbrev pub flop_hand : HandState
flop_hand = record {
  hand_id = "h1";
  dealer_player_id = "carol";
  small_blind_player_id = "alice";
  big_blind_player_id = "bob";
  pot = 90;
  rake_taken = 0;
  phase = HandPhase.flop;
  current_highest_bet = 10;
  last_raise_amount = 10;
  min_raise_amount = 10;
  raises_this_street = 0;
  acting_player_id = some "alice";
  action_deadline = none;
  flop_card_1 = some 1;
  flop_card_2 = some 2;
  flop_card_3 = some 3;
  turn_card = none;
  river_card = none;
  second_board = [];
  side_pots = [];
  pending_actions = "alice" ∷ [];
  action_order = "alice" ∷ "bob" ∷ [];
  started_at = none;
  last_full_raise_to = 10;
  action_closed_for = [];
}

abbrev pub table_of : HandState → PlayerState → PlayerState → PlayerState → GameState
table_of h p q r = record {
  game_id = "g1";
  status = GameStatus.active;
  version = 7;
  config = some settings;
  dealer_seat = 3;
  hand_number = 4;
  current_hand = some h;
  players = ("alice", p) ∷ ("bob", q) ∷ ("carol", r) ∷ [];
  player_user_ids = [];
  reserved_seats = [];
  waiting_list = [];
}

abbrev pub table : GameState
table = table_of flop_hand alice bob carol

abbrev pub command : Payload → PlayerCommand
command p = record { command_id = "c1"; game_id = "g1"; client_state_version = 7; payload = p }
