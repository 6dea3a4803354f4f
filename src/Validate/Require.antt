-- ===== src/Validate/Require.antt =====
-- The shared checks of internal/engine/validate.go, and the amounts that it computes.
use pace_poker.Prelude.{
  Int64, String, Option, none, some, add64, sub64, lt64, le64, str_eq, if◌then◌else◌, ◌<>◌,
}
use pace_poker.Proto.{GameStatus, HandPhase, CashGameConfig, PlayerState, HandState, GameState}
use pace_poker.Players.{get}
use pace_poker.Rejection.{
  Checked, passed, reject, ◌>>=◌, ◌>>◌, pass, reject_if, table_is_closed, game_not_active,
  hand_not_in_progress, not_at_table, not_your_turn, player_sitting_out, player_has_folded,
  player_is_all_in,
}

abbrev pub open_status : GameStatus → Checked (Unit {0})
open_status GameStatus.closed = reject table_is_closed "table is closed"
open_status _ = pass

unfoldable pub require_table_open : GameState → Checked (Unit {0})
require_table_open s = open_status s.status

abbrev pub active_status : GameStatus → Checked (Unit {0})
active_status GameStatus.closed = reject table_is_closed "table is closed"
active_status GameStatus.active = pass
active_status GameStatus.paused = pass
active_status _ = reject game_not_active "game is not currently active"

unfoldable pub require_active_game : GameState → Checked (Unit {0})
require_active_game s = active_status s.status

abbrev pub playable_phase : HandPhase → HandState → Checked HandState
playable_phase HandPhase.hand_over h = reject hand_not_in_progress "hand is not in a playable phase"
playable_phase HandPhase.phase_unspecified h =
    reject hand_not_in_progress "hand is not in a playable phase"
playable_phase _ h = passed h

abbrev pub hand_of : Option HandState → Checked HandState
hand_of none = reject hand_not_in_progress "no hand in progress"
hand_of (some h) = passed h

-- `state.CurrentHand == nil`, as the showdown commands test it.
unfoldable pub require_hand : GameState → Checked HandState
require_hand s = hand_of s.current_hand

-- The hand comes back, for the code that reads `state.CurrentHand` afterwards.
unfoldable pub require_hand_in_progress : GameState → Checked HandState
require_hand_in_progress s = do h ← hand_of s.current_hand; playable_phase h.phase h

abbrev pub seat_of : Option PlayerState → String → Checked PlayerState
seat_of none actor = reject not_at_table ("player " <> actor <> " is not at this table")
seat_of (some p) actor = passed p

unfoldable pub require_seated : GameState → String → Checked PlayerState
require_seated s actor = seat_of (get actor s.players) actor

abbrev pub turn_of : Option String → String → Checked (Unit {0})
turn_of none actor = reject not_your_turn "no player is currently acting"
turn_of (some pid) actor = do
  reject_if (str_eq pid "") not_your_turn "no player is currently acting"
  if str_eq pid actor then pass else reject not_your_turn "it is not your turn to act"

unfoldable pub require_actors_turn : HandState → String → Checked (Unit {0})
require_actors_turn h actor = turn_of h.acting_player_id actor

unfoldable pub require_can_act : PlayerState → Checked (Unit {0})
require_can_act p = do
  reject_if p.is_sitting_out player_sitting_out "player is sitting out"
  reject_if p.is_folded player_has_folded "player has folded this hand"
  reject_if p.is_all_in player_is_all_in "player is all-in"

unfoldable pub call_amount : HandState → PlayerState → Int64
call_amount h p =
    if le64 h.current_highest_bet p.current_bet
    then 0
    else (let needed = sub64 h.current_highest_bet p.current_bet in
        if lt64 p.stack needed then p.stack else needed)

abbrev pub raise_step : Option CashGameConfig → Int64 → Int64
raise_step none last = last
raise_step (some c) last = if lt64 last c.big_blind then c.big_blind else last

unfoldable pub min_raise_to : GameState → HandState → Int64
min_raise_to s h = add64 h.current_highest_bet (raise_step s.config h.last_raise_amount)
