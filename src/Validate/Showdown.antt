-- ===== src/Validate/Showdown.antt =====
-- internal/engine/validate_showdown.go: showing, mucking and running it twice.
use pace_poker.Prelude.{Bool, true, false, not, String, Option, none, some}
use pace_poker.Proto.{HandPhase, CashGameConfig, GameState}
use pace_poker.Rejection.{
  Checked, ◌>>=◌, ◌>>◌, pass, reject, reject_if, player_sitting_out, cannot_show_yet,
  cannot_muck_yet, cannot_run_it_twice,
}
use pace_poker.Validate.Require.{
  require_active_game, require_hand, require_hand_in_progress, require_seated,
}

abbrev pub at_showdown : HandPhase → Bool
at_showdown HandPhase.showdown = true
at_showdown HandPhase.hand_over = true
at_showdown _ = false

unfoldable pub validate_show_cards : GameState → String → Checked (Unit {0})
validate_show_cards s actor = do
  require_active_game s
  h ← require_hand s
  p ← require_seated s actor
  reject_if p.is_sitting_out player_sitting_out "sitting out"
  reject_if (not (at_showdown h.phase)) cannot_show_yet "can only show cards at showdown"

unfoldable pub validate_muck_cards : GameState → String → Checked (Unit {0})
validate_muck_cards s actor = do
  require_active_game s
  h ← require_hand s
  _ ← require_seated s actor
  reject_if (not (at_showdown h.phase)) cannot_muck_yet "can only muck cards at showdown"

abbrev twice_allowed : Option CashGameConfig → Checked (Unit {0})
twice_allowed none = reject cannot_run_it_twice "run-it-twice is disabled at this table"
twice_allowed (some c) =
    reject_if (not c.allow_run_it_twice) cannot_run_it_twice
      "run-it-twice is disabled at this table"

abbrev board_still_open : HandPhase → Checked (Unit {0})
board_still_open HandPhase.river =
    reject cannot_run_it_twice "too late to run it twice in phase HAND_PHASE_RIVER"
board_still_open HandPhase.showdown =
    reject cannot_run_it_twice "too late to run it twice in phase HAND_PHASE_SHOWDOWN"
board_still_open HandPhase.hand_over =
    reject cannot_run_it_twice "too late to run it twice in phase HAND_PHASE_HAND_OVER"
board_still_open _ = pass

unfoldable pub validate_run_it_twice : GameState → String → Checked (Unit {0})
validate_run_it_twice s actor = do
  require_active_game s
  h ← require_hand_in_progress s
  p ← require_seated s actor
  twice_allowed s.config
  reject_if (not p.is_all_in) cannot_run_it_twice "you must be all-in to run it twice"
  board_still_open h.phase
