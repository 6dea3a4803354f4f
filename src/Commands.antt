-- ===== src/Commands.antt =====
-- internal/engine/handler.go: what a validated command does. `commandEvents` turns a rejected
-- command into one CommandRejected event; the cases of `buildCommandEvents` assume that the
-- command has passed. Reads that would fault on a nil hand or player give nothing here: the
-- checks rule them out.
pub mod Build
use pace_poker.Prelude.{String, List, [], ◌∷◌}
use pace_poker.Proto.{GameState, GameEvent, PlayerCommand}
use pace_poker.Rejection.{Checked, passed, rejected, to_command_rejected_event}
use pace_poker.Validate.{validate}
use Build.{build_command_events}

abbrev pub events_of : Checked (Unit {0}) → GameState → PlayerCommand → String → List GameEvent
events_of (rejected r) s cmd actor = to_command_rejected_event r s.game_id cmd.command_id ∷ []
events_of (passed ok) s cmd actor = build_command_events s cmd actor

unfoldable pub command_events : GameState → PlayerCommand → String → List GameEvent
command_events s cmd actor = events_of (validate s cmd.payload actor) s cmd actor
