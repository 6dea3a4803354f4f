-- ===== src/Validate/Sessions.antt =====
-- internal/engine/validate_session.go: leaving and rejoining play, the time bank, chat and emotes.
use pace_poker.Prelude.{
  ℕ, Int64, String, not, Option, none, some, le64, ltb, trims_to_empty, rune_count,
}
use pace_poker.Proto.{CashGameConfig, GameState}
use pace_poker.Rejection.{
  Checked, passed, rejected, ◌>>=◌, ◌>>◌, reject, reject_if, already_sitting_out,
  already_sitting_in, time_bank_not_active, no_time_bank, chat_disabled, chat_message_empty,
  chat_message_too_long, malformed_command, RejectionCode,
}
use pace_poker.Validate.Require.{
  require_table_open, require_active_game, require_hand_in_progress, require_seated,
  require_actors_turn,
}

abbrev pub max_chat_message_runes : ℕ
max_chat_message_runes = 500

unfoldable pub validate_sit_out : GameState → String → Checked (Unit {0})
validate_sit_out s actor = do
  require_table_open s
  p ← require_seated s actor
  reject_if p.is_sitting_out already_sitting_out "already sitting out"

unfoldable pub validate_sit_in : GameState → String → Checked (Unit {0})
validate_sit_in s actor = do
  require_table_open s
  p ← require_seated s actor
  reject_if (not p.is_sitting_out) already_sitting_in "already sitting in"

-- The rejection under another code, with its reason.
abbrev recode : RejectionCode → Checked (Unit {0}) → Checked (Unit {0})
recode c (passed a) = passed a
recode c (rejected r) = reject c r.reason

abbrev time_left : Option Int64 → Checked (Unit {0})
time_left none = reject no_time_bank "no time bank remaining"
time_left (some d) = reject_if (le64 d 0) no_time_bank "no time bank remaining"

unfoldable pub validate_use_time_bank : GameState → String → Checked (Unit {0})
validate_use_time_bank s actor = do
  require_active_game s
  h ← require_hand_in_progress s
  p ← require_seated s actor
  recode time_bank_not_active (require_actors_turn h actor)
  time_left p.time_bank_remaining

abbrev chat_allowed : Option CashGameConfig → Checked (Unit {0})
chat_allowed none = reject chat_disabled "chat is disabled at this table"
chat_allowed (some c) = reject_if (not c.allow_chat) chat_disabled "chat is disabled at this table"

unfoldable pub validate_chat_message : GameState → String → String → Checked (Unit {0})
validate_chat_message s text actor = do
  require_table_open s
  chat_allowed s.config
  _ ← require_seated s actor
  reject_if (trims_to_empty text) chat_message_empty "chat message is empty"
  reject_if (ltb max_chat_message_runes (rune_count text)) chat_message_too_long
      "chat message exceeds 500 characters"

unfoldable pub validate_emote : GameState → String → String → Checked (Unit {0})
validate_emote s emote_id actor = do
  require_table_open s
  chat_allowed s.config
  _ ← require_seated s actor
  reject_if (trims_to_empty emote_id) malformed_command "emote_id is required"
