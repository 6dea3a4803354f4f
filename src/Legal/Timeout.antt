-- ===== src/Legal/Timeout.antt =====
-- What the server does for a player whose time is up (`timeoutAction` of internal/engine/advance.go),
-- against the checks of internal/engine/validate_actions.go.
use pace_poker.Prelude.{
  String, true, false, some, ◌∷◌, ◌≡◌, ◌≢◌, refl, ◌⊎◌, inl, inr, arith, lt64, eq_iff, Bool-cases,
}
use pace_poker.Proto.{
  HandPhase, PlayerState, HandState, GameState, Event, bare, Payload, fold, check, PlayerCommand,
}
use pace_poker.Rejection.{passed, pass}
use pace_poker.Validate.Require.{
  require_active_game, require_hand_in_progress, require_seated, require_can_act,
  require_actors_turn, playable_phase, turn_of, call_amount,
}
use pace_poker.Validate.Actions.{require_action, validate_fold, validate_check}
use pace_poker.Validate.{validate}
use pace_poker.Commands.Build.{build_payload}
use pace_poker.Advance.Hand.{timeout_action}
use pace_poker.Legal.Action.{MayAct}

playable :
    (h : HandState)
    → (h.phase ≢ HandPhase.hand_over) × (h.phase ≢ HandPhase.phase_unspecified)
    → playable_phase h.phase h ≡ passed h
playable h n = ground arith

turn_passes : (actor : String) → actor ≢ "" → turn_of (some actor) actor ≡ pass
turn_passes actor n = ground (arith, eq_iff actor "", eq_iff actor actor)

-- The facts of `MayAct` are all that the five checks ask for.
MayAct-require_action :
    (s : GameState) (actor : String) (h : HandState) (p : PlayerState)
    → MayAct s actor h p
    → actor ≢ ""
    → require_action s actor ≡ passed (h, p)
unfolding require_action require_active_game require_hand_in_progress require_seated require_can_act
    require_actors_turn
MayAct-require_action s actor h p m n = elim m.open_for_play [
  | inl e ↦
      rw
        (
          e,
          m.in_hand,
          playable h m.playable,
          m.seated,
          m.sits_in,
          m.not_folded,
          m.not_all_in,
          m.on_turn,
          turn_passes actor n,
        )
        refl
  | inr e ↦
      rw
        (
          e,
          m.in_hand,
          playable h m.playable,
          m.seated,
          m.sits_in,
          m.not_folded,
          m.not_all_in,
          m.on_turn,
          turn_passes actor n,
        )
        refl
]

-- The server announces the timeout and then does what the command would have done for the player,
-- a command that the player could have given at that moment.
abbrev pub DoesFor : String → GameState → HandState → PlayerCommand → String → Payload → Type 0
DoesFor text s h cmd actor payload =
    (timeout_action h s actor
      ≡ bare (Event.player_timed_out actor text) ∷ build_payload s cmd actor payload)
    × (validate s payload actor ≡ pass)

-- The timeout of a player who may act folds where the player faces a bet and checks where not; in
-- both cases the validators would accept that command from the player, and the events are those of
-- the command, after the announcement. (The player's id is not empty.)
pub timeout_action-DoesFor :
    (s : GameState) (cmd : PlayerCommand) (actor : String) (h : HandState) (p : PlayerState)
    → MayAct s actor h p
    → actor ≢ ""
    → ((lt64 p.current_bet h.current_highest_bet ≡ true) × DoesFor "fold" s h cmd actor fold)
      ⊎ ((lt64 p.current_bet h.current_highest_bet ≡ false) × DoesFor "check" s h cmd actor check)
unfolding timeout_action validate validate_fold validate_check call_amount
timeout_action-DoesFor s cmd actor h p m n =
    elim (Bool-cases (lt64 p.current_bet h.current_highest_bet)) [
      | inl e ↦ inl (e, (rw (m.seated, e) refl, rw (MayAct-require_action s actor h p m n) refl))
      | inr e ↦
          inr
            (e, (rw (m.seated, e) refl, rw (MayAct-require_action s actor h p m n) (ground arith)))
    ]
