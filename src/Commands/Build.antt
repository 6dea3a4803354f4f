-- ===== src/Commands/Build.antt =====
-- `buildCommandEvents` of internal/engine/handler.go.
use pace_poker.Prelude.{ℕ, Int64, String, Option, none, some, List, [], ◌∷◌, add64, sub64}
use pace_poker.Proto.{
  GameState, GameEvent, Event, bare, Payload, PlayerCommand, payload_unset, fold, check, call, bet,
  raise, all_in, sit_out, sit_in, show_cards, muck_cards, use_time_bank, chat_message, emote,
  run_it_twice, resume,
}
use pace_poker.Players.{get}
use pace_poker.Rejection.{to_command_rejected_event, unknown_command}
use pace_poker.Validate.Require.{call_amount}

-- The one event of a case.
abbrev pub one : Event → List GameEvent
one e = bare e ∷ []

unfoldable pub build_call : GameState → String → List GameEvent
build_call s actor = elim s.current_hand [
  | none ↦ []
  | some h ↦ elim (get actor s.players) [
    | none ↦ []
    | some p ↦ one (Event.player_called actor (call_amount h p))
  ]
]

unfoldable pub build_raise : GameState → String → Int64 → List GameEvent
build_raise s actor to = elim s.current_hand [
  | none ↦ []
  | some h ↦ one (Event.player_raised actor to (sub64 to h.current_highest_bet))
]

unfoldable pub build_all_in : GameState → String → List GameEvent
build_all_in s actor = elim (get actor s.players) [
  | none ↦ []
  | some p ↦ one (Event.player_all_in actor (add64 p.current_bet p.stack))
]

-- The zero card stands for a hole card that is nil.
abbrev card_or_zero : Option ℕ → ℕ
card_or_zero none = 0
card_or_zero (some c) = c

unfoldable pub build_show_cards : GameState → String → List GameEvent
build_show_cards s actor = elim (get actor s.players) [
  | none ↦ []
  | some p ↦
      one
        (Event.player_showed_cards actor (card_or_zero p.hole_card_1) (card_or_zero p.hole_card_2))
]

abbrev pub build_payload : GameState → PlayerCommand → String → Payload → List GameEvent
build_payload s cmd actor fold = one (Event.player_folded actor)
build_payload s cmd actor check = one (Event.player_checked actor)
build_payload s cmd actor (call x) = build_call s actor
build_payload s cmd actor (bet x) = one (Event.player_bet actor x)
build_payload s cmd actor (raise to) = build_raise s actor to
build_payload s cmd actor all_in = build_all_in s actor
build_payload s cmd actor sit_out = one (Event.player_sat_out actor)
build_payload s cmd actor sit_in = one (Event.player_sat_in actor)
build_payload s cmd actor show_cards = build_show_cards s actor
build_payload s cmd actor muck_cards = one (Event.player_mucked_cards actor)
build_payload s cmd actor use_time_bank = one (Event.command_accepted cmd.command_id)
build_payload s cmd actor (chat_message text) = one (Event.chat_message_sent actor text)
build_payload s cmd actor (emote id) = one (Event.player_emote_sent actor id)
build_payload s cmd actor (run_it_twice agree) = one (Event.run_it_twice_agreed (actor ∷ []))
build_payload s cmd actor payload_unset =
    to_command_rejected_event
      (record { code = unknown_command; reason = "unhandled command type <nil>" }) s.game_id
      cmd.command_id
    ∷ []
build_payload s cmd actor (resume from) =
    to_command_rejected_event
      (record {
        code = unknown_command;
        reason = "unhandled command type *pokerv1.PlayerCommand_Resume";
      })
      s.game_id cmd.command_id
    ∷ []

unfoldable pub build_command_events : GameState → PlayerCommand → String → List GameEvent
build_command_events s cmd actor = build_payload s cmd actor cmd.payload
