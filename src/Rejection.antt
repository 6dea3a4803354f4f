-- ===== src/Rejection.antt =====
-- internal/engine/rejection.go: why a command is refused.
use pace_poker.Prelude.{String, Bool, true, false}
use pace_poker.Proto.{GameEvent, bare, command_rejected}

pub data RejectionCode : Type 0 where
  not_at_table not_your_turn player_sitting_out player_has_folded player_is_all_in : RejectionCode
  wrong_phase hand_not_in_progress game_not_active table_is_closed : RejectionCode
  illegal_action cannot_check cannot_fold cannot_show_yet cannot_muck_yet : RejectionCode
  cannot_run_it_twice raise_action_closed : RejectionCode
  illegal_amount amount_below_min_bet amount_below_min_raise amount_above_stack : RejectionCode
  raise_cap_reached call_amount_mismatch : RejectionCode
  no_time_bank time_bank_not_active already_sitting_out already_sitting_in : RejectionCode
  chat_disabled chat_muted chat_message_empty chat_message_too_long : RejectionCode
  malformed_command unknown_command : RejectionCode

-- The stable text of a code.
unfoldable pub code_text : RejectionCode → String
code_text not_at_table = "NOT_AT_TABLE"
code_text not_your_turn = "NOT_YOUR_TURN"
code_text player_sitting_out = "PLAYER_SITTING_OUT"
code_text player_has_folded = "PLAYER_FOLDED"
code_text player_is_all_in = "PLAYER_ALL_IN"
code_text wrong_phase = "WRONG_PHASE"
code_text hand_not_in_progress = "HAND_NOT_IN_PROGRESS"
code_text game_not_active = "GAME_NOT_ACTIVE"
code_text table_is_closed = "TABLE_CLOSED"
code_text illegal_action = "ILLEGAL_ACTION"
code_text cannot_check = "CANNOT_CHECK"
code_text cannot_fold = "CANNOT_FOLD"
code_text cannot_show_yet = "CANNOT_SHOW_YET"
code_text cannot_muck_yet = "CANNOT_MUCK_YET"
code_text cannot_run_it_twice = "CANNOT_RUN_IT_TWICE"
code_text raise_action_closed = "RAISE_ACTION_CLOSED"
code_text illegal_amount = "ILLEGAL_AMOUNT"
code_text amount_below_min_bet = "AMOUNT_BELOW_MIN_BET"
code_text amount_below_min_raise = "AMOUNT_BELOW_MIN_RAISE"
code_text amount_above_stack = "AMOUNT_ABOVE_STACK"
code_text raise_cap_reached = "RAISE_CAP_REACHED"
code_text call_amount_mismatch = "CALL_AMOUNT_MISMATCH"
code_text no_time_bank = "NO_TIME_BANK"
code_text time_bank_not_active = "TIME_BANK_NOT_ACTIVE"
code_text already_sitting_out = "ALREADY_SITTING_OUT"
code_text already_sitting_in = "ALREADY_SITTING_IN"
code_text chat_disabled = "CHAT_DISABLED"
code_text chat_muted = "CHAT_MUTED"
code_text chat_message_empty = "CHAT_MESSAGE_EMPTY"
code_text chat_message_too_long = "CHAT_MESSAGE_TOO_LONG"
code_text malformed_command = "MALFORMED_COMMAND"
code_text unknown_command = "UNKNOWN_COMMAND"

pub record RejectionReason : Type 0 where
  pub code : RejectionCode
  pub reason : String

unfoldable pub to_command_rejected_event : RejectionReason → String → String → GameEvent
to_command_rejected_event r game command =
    record (bare (command_rejected command r.reason (code_text r.code))) { game_id = game }

-- The outcome of a check: what it looked up, or the rejection. `if r := check(…); r != nil
-- { return r }` is a bind.
pub data Checked (A : Type 0) : Type 0 where
  passed : A → Checked A
  rejected : RejectionReason → Checked A

abbrev pub reject : {A : Type 0} → RejectionCode → String → Checked A
reject c t = rejected (record { code = c; reason = t })

infixl 5 ◌>>=◌ ◌>>◌
abbrev pub ◌>>=◌ : {A B : Type 0} → Checked A → (A → Checked B) → Checked B
passed a >>= f = f a
rejected r >>= f = rejected r

abbrev pub ◌>>◌ : {A B : Type 0} → Checked A → Checked B → Checked B
m >> k = m >>= λ _. k

abbrev pub pass : Checked (Unit {0})
pass = passed tt

-- `if cond { return reject(…) }`.
abbrev pub reject_if : Bool → RejectionCode → String → Checked (Unit {0})
reject_if true c t = reject c t
reject_if false c t = pass

abbrev pub is_passed : {A : Type 0} → Checked A → Bool
is_passed (passed a) = true
is_passed (rejected r) = false
