-- ===== src/Proto/Settings.antt =====
-- proto/poker/v1/common.proto and config.proto.
use pace_poker.Prelude.{Bool, true, false, Option, Int32, Int64}

pub data GameStatus : Type 0 where
  status_unspecified waiting active paused finished closed : GameStatus

pub data HandPhase : Type 0 where
  phase_unspecified preflop flop turn river showdown hand_over : HandPhase

pub data SeatStatus : Type 0 where
  seat_unspecified seat_empty seat_reserved occupied sitting_out disconnected : SeatStatus

pub data BettingStructure : Type 0 where
  structure_unspecified no_limit pot_limit fixed_limit spread_limit : BettingStructure

abbrev pub is_fixed_limit : BettingStructure → Bool
is_fixed_limit fixed_limit = true
is_fixed_limit _ = false

-- The fields of a CashGameConfig that the engine and the lobby read. Absent from the model: the
-- table's name, variant, currency and password, and the settings that no code of these packages
-- reads.
pub record CashGameConfig : Type 0 where
  pub structure : BettingStructure
  pub max_seats : Int32
  pub min_players_to_start : Int32
  pub small_blind : Int64
  pub big_blind : Int64
  pub ante : Int64
  pub bb_ante : Int64
  pub max_raises_per_street : Int32
  pub uncap_heads_up : Bool
  pub min_buy_in : Int64
  pub max_buy_in : Int64
  pub rake_bps : Int32
  pub rake_cap : Int64
  pub action_timeout : Option Int64
  pub allow_run_it_twice : Bool
  pub allow_chat : Bool
