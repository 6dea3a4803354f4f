-- ===== src/Validate.antt =====
-- internal/engine/validate.go and its companions: whether a command is legal in a state.
-- `validate` is the dispatch on the command's payload; nil is a passed check.
pub mod Require
pub mod Actions
pub mod Sessions
pub mod Showdown
use pace_poker.Prelude.{String}
use pace_poker.Proto.{
  GameState, Payload, payload_unset, fold, check, call, bet, raise, all_in, sit_out, sit_in,
  show_cards, muck_cards, use_time_bank, chat_message, emote, run_it_twice, resume,
}
use pace_poker.Rejection.{Checked, reject, malformed_command, unknown_command}
use Actions.{
  validate_fold, validate_check, validate_call, validate_bet, validate_raise, validate_all_in,
}
use Sessions.{
  validate_sit_out, validate_sit_in, validate_use_time_bank, validate_chat_message, validate_emote,
}
use Showdown.{validate_show_cards, validate_muck_cards, validate_run_it_twice}

unfoldable pub validate : GameState → Payload → String → Checked (Unit {0})
validate s payload_unset actor = reject malformed_command "command payload is empty"
validate s fold actor = validate_fold s actor
validate s check actor = validate_check s actor
validate s (call x) actor = validate_call s x actor
validate s (bet x) actor = validate_bet s x actor
validate s (raise to) actor = validate_raise s to actor
validate s all_in actor = validate_all_in s actor
validate s sit_out actor = validate_sit_out s actor
validate s sit_in actor = validate_sit_in s actor
validate s show_cards actor = validate_show_cards s actor
validate s muck_cards actor = validate_muck_cards s actor
validate s use_time_bank actor = validate_use_time_bank s actor
validate s (chat_message text) actor = validate_chat_message s text actor
validate s (emote id) actor = validate_emote s id actor
validate s (run_it_twice agree) actor = validate_run_it_twice s actor
validate s (resume from) actor =
    reject unknown_command "unknown command type *pokerv1.PlayerCommand_Resume"
