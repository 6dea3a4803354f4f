-- ===== src/Validate/Actions.antt =====
-- internal/engine/validate_actions.go: fold, check, call, bet, raise, all-in.
use pace_poker.Prelude.{
  ℕ, ◌+◌, Int64, Int32, String, Bool, ◌&&◌, not, Option, none, some, sub64, lt64, le64, lt32, le32,
  ◌==◌, contains, keep, length, show64, m32, m64, ◌-◌, if◌then◌else◌, ◌<>◌,
}
use pace_poker.Proto.{CashGameConfig, PlayerState, HandState, GameState, is_fixed_limit}
use pace_poker.Rejection.{
  Checked, ◌>>=◌, ◌>>◌, pass, passed, reject_if, cannot_check, illegal_action, call_amount_mismatch,
  illegal_amount, amount_below_min_bet, amount_above_stack, raise_action_closed,
  amount_below_min_raise, raise_cap_reached,
}
use pace_poker.Apply.Street.{config_big_blind}
use pace_poker.Validate.Require.{
  require_active_game, require_hand_in_progress, require_seated, require_actors_turn,
  require_can_act, call_amount, min_raise_to,
}

-- The five checks that every action begins with: the hand and the actor's seat.
unfoldable pub require_action : GameState → String → Checked (HandState × PlayerState)
require_action s actor = do
  require_active_game s
  h ← require_hand_in_progress s
  p ← require_seated s actor
  require_can_act p
  require_actors_turn h actor
  passed (h, p)

unfoldable pub validate_fold : GameState → String → Checked (Unit {0})
validate_fold s actor = do require_action s actor; pass

unfoldable pub validate_check : GameState → String → Checked (Unit {0})
validate_check s actor = do
  (h, p) ← require_action s actor
  reject_if (lt64 0 (call_amount h p)) cannot_check
      ("there is a bet of " <> show64 h.current_highest_bet <> " to call")

unfoldable pub validate_call : GameState → Int64 → String → Checked (Unit {0})
validate_call s amount actor = do
  (h, p) ← require_action s actor
  let needed = call_amount h p
  reject_if (needed == 0) illegal_action "nothing to call; use check instead"
  reject_if (lt64 0 amount && not (amount == needed)) call_amount_mismatch
      ("call amount " <> show64 amount <> " does not match required " <> show64 needed)

-- The checks of a bet on the actor's amounts.
unfoldable pub bet_checks : GameState → Int64 → HandState → PlayerState → Checked (Unit {0})
bet_checks s amount h p = do
  reject_if (lt64 0 h.current_highest_bet) illegal_action
      ("use raise; there is already a bet of " <> show64 h.current_highest_bet)
  reject_if (le64 amount 0) illegal_amount "bet amount must be positive"
  let bb = config_big_blind s.config
  reject_if (lt64 amount bb && not (amount == p.stack)) amount_below_min_bet
      ("bet must be at least " <> show64 bb <> " (big blind) unless going all-in")
  reject_if (lt64 p.stack amount) amount_above_stack
      ("bet " <> show64 amount <> " exceeds stack " <> show64 p.stack)

unfoldable pub validate_bet : GameState → Int64 → String → Checked (Unit {0})
validate_bet s amount actor = do (h, p) ← require_action s actor; bet_checks s amount h p

abbrev pub in_play : PlayerState → Bool
in_play p = not p.is_folded && not p.is_sitting_out

unfoldable pub players_in_hand : GameState → ℕ
players_in_hand s = length (keep (λ e. in_play e.1) s.players)

-- An int32 as the int64 of the same value, for `%d`.
abbrev pub widen32 : Int32 → Int64
widen32 x = if lt32 x 0 then x + (m64 - m32) else x

abbrev pub cap_check : Option CashGameConfig → GameState → HandState → Checked (Unit {0})
cap_check none s h = pass
cap_check (some c) s h =
    let cap = if c.uncap_heads_up && players_in_hand s == 2 then 0 else c.max_raises_per_street in
    reject_if (is_fixed_limit c.structure && lt32 0 cap && le32 cap h.raises_this_street)
      raise_cap_reached ("raise cap of " <> show64 (widen32 cap) <> " reached for this street")

-- The cap on raises of a fixed-limit street.
unfoldable pub require_raise_cap : GameState → HandState → Checked (Unit {0})
require_raise_cap s h = cap_check s.config s h

-- The checks of a raise on the hand and the actor's amounts.
unfoldable pub raise_checks :
    GameState → Int64 → String → HandState → PlayerState → Checked (Unit {0})
raise_checks s to actor h p = do
  reject_if (h.current_highest_bet == 0) illegal_action "no bet to raise; use bet instead"
  reject_if (contains h.action_closed_for actor) raise_action_closed
      "a sub-minimum all-in raise did not reopen your action; you may call or fold"
  reject_if (le64 to h.current_highest_bet) illegal_amount
      ("raise to " <> show64 to <> " must exceed current bet " <> show64 h.current_highest_bet)
  let needed = sub64 to p.current_bet
  reject_if (lt64 p.stack needed) amount_above_stack (
      "raise to "
      <> show64 to
      <> " requires "
      <> show64 needed
      <> " but stack is "
      <> show64 p.stack)
  let min_to = min_raise_to s h
  reject_if (lt64 to min_to && not (needed == p.stack)) amount_below_min_raise (
      "raise to " <> show64 to <> " is below minimum " <> show64 min_to <> " (unless going all-in)")
  require_raise_cap s h

unfoldable pub validate_raise : GameState → Int64 → String → Checked (Unit {0})
validate_raise s to actor = do (h, p) ← require_action s actor; raise_checks s to actor h p

unfoldable pub validate_all_in : GameState → String → Checked (Unit {0})
validate_all_in s actor = do
  (h, p) ← require_action s actor
  reject_if (le64 p.stack 0) illegal_action "stack is zero"
