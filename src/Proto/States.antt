-- ===== src/Proto/States.antt =====
-- proto/poker/v1/state.proto: the state of one game.
use pace_poker.Prelude.{Bool, ℕ, String, Option, List, Int32, Int64}
use pace_poker.Proto.Settings.{GameStatus, HandPhase, SeatStatus, CashGameConfig}

pub record PlayerState : Type 0 where
  pub player_id : String
  pub seat : Int32
  pub seat_status : SeatStatus
  pub stack : Int64
  pub current_bet : Int64
  pub total_committed_this_hand : Int64
  pub is_folded : Bool
  pub is_all_in : Bool
  pub is_sitting_out : Bool
  pub time_bank_remaining : Option Int64
  pub must_post_blind : Bool
  pub disconnected_at : Option ℕ
  pub hole_card_1 : Option ℕ
  pub hole_card_2 : Option ℕ

pub record SidePot : Type 0 where
  pub amount : Int64
  pub eligible_player_ids : List String

pub record HandState : Type 0 where
  pub hand_id : String
  pub dealer_player_id : String
  pub small_blind_player_id : String
  pub big_blind_player_id : String
  pub pot : Int64
  pub rake_taken : Int64
  pub phase : HandPhase
  pub current_highest_bet : Int64
  pub last_raise_amount : Int64
  pub min_raise_amount : Int64
  pub raises_this_street : Int32
  pub acting_player_id : Option String
  pub action_deadline : Option ℕ
  pub flop_card_1 : Option ℕ
  pub flop_card_2 : Option ℕ
  pub flop_card_3 : Option ℕ
  pub turn_card : Option ℕ
  pub river_card : Option ℕ
  pub second_board : List ℕ
  pub side_pots : List SidePot
  pub pending_actions : List String
  pub action_order : List String
  pub started_at : Option ℕ
  pub last_full_raise_to : Int64
  pub action_closed_for : List String

pub record GameState : Type 0 where
  pub game_id : String
  pub status : GameStatus
  pub version : Int64
  pub config : Option CashGameConfig
  pub dealer_seat : Int32
  pub hand_number : Int64
  pub current_hand : Option HandState
  pub players : List (String × PlayerState)
  pub player_user_ids : List (String × String)
  pub reserved_seats : List Int32
  pub waiting_list : List String
