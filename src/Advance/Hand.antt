-- ===== src/Advance/Hand.antt =====
-- The progress of a hand: `timeoutAction`, `advanceStreet`, `startNextAction` and `advanceHand` of
-- internal/engine/advance.go.
use pace_poker.Prelude.{
  ℕ, ◌+◌, Int64, String, Bool, false, Option, none, some, List, [], ◌∷◌, lt64, ltb, leb,
  if◌then◌else◌,
}
use pace_poker.Proto.{
  HandPhase, preflop, flop, turn, river, CashGameConfig, PlayerState, HandState, GameState,
  GameEvent, Event, bare,
}
use pace_poker.Players.{get}
use pace_poker.Cards.Dealer.{Dealer}
use pace_poker.Advance.Monad.{Action, ◌>>=◌, pure, wrapping}
use pace_poker.Advance.Active.{non_folded_count}
use pace_poker.Advance.Ending.{end_hand_uncontested, end_hand_showdown}

abbrev pub faces_bet : HandState → Option PlayerState → Bool
faces_bet h none = false
faces_bet h (some p) = lt64 p.current_bet h.current_highest_bet

-- Fold where the player faces a bet, check otherwise.
unfoldable pub timeout_action : HandState → GameState → String → List GameEvent
timeout_action h s pid =
    if faces_bet h (get pid s.players)
    then bare (Event.player_timed_out pid "fold") ∷ bare (Event.player_folded pid) ∷ []
    else bare (Event.player_timed_out pid "check") ∷ bare (Event.player_checked pid) ∷ []

abbrev pub round_ended : HandState → GameEvent
round_ended h = bare (Event.betting_round_ended h.phase h.pot)

module _ (dlr : Dealer) where
  unfoldable pub deal_flop : HandState → Action dlr.State (List GameEvent)
  deal_flop h = do
    _ ← wrapping "burn (flop)" dlr.burn
    c1 ← dlr.deal
    c2 ← dlr.deal
    c3 ← dlr.deal
    pure (round_ended h ∷ bare (Event.flop_dealt c1 c2 c3) ∷ [])

  unfoldable pub deal_turn : HandState → Action dlr.State (List GameEvent)
  deal_turn h = do
    _ ← wrapping "burn (turn)" dlr.burn
    c ← dlr.deal
    pure (round_ended h ∷ bare (Event.turn_dealt c) ∷ [])

  unfoldable pub deal_river : HandState → Action dlr.State (List GameEvent)
  deal_river h = do
    _ ← wrapping "burn (river)" dlr.burn
    c ← dlr.deal
    pure (round_ended h ∷ bare (Event.river_dealt c) ∷ [])

  abbrev pub street_of : HandPhase → HandState → GameState → Action dlr.State (List GameEvent)
  street_of preflop h s = deal_flop h
  street_of flop h s = deal_turn h
  street_of turn h s = deal_river h
  street_of river h s = pure (round_ended h ∷ end_hand_showdown h s)
  street_of _ h s = pure []

  unfoldable pub advance_street : HandState → GameState → Action dlr.State (List GameEvent)
  advance_street h s = street_of h.phase h s

-- The deadline of an action that starts now; none without a positive timeout or at the zero time.
abbrev pub deadline_of : Option Int64 → Option ℕ → Option ℕ
deadline_of none now = none
deadline_of (some d) none = none
deadline_of (some d) (some t) = if lt64 0 d then some (t + d) else none

abbrev pub timeout_of : Option CashGameConfig → Option Int64
timeout_of none = none
timeout_of (some c) = c.action_timeout

unfoldable pub start_next_action : String → GameState → Option ℕ → List GameEvent
start_next_action pid s now =
    bare (Event.action_started pid (timeout_of s.config) (deadline_of (timeout_of s.config) now))
    ∷ []

-- `now.After(deadline)`, for an actor with a deadline at a non-zero time.
abbrev pub deadline_passed : Option ℕ → Option ℕ → Bool
deadline_passed none now = false
deadline_passed (some d) none = false
deadline_passed (some d) (some t) = ltb d t

module _ (dlr : Dealer) where
  -- The rest of `advanceHand`, with nobody acting: the round is finished, or the first pending
  -- player starts.
  abbrev pub idle_hand :
      List String → HandState → GameState → Option ℕ → Action dlr.State (List GameEvent)
  idle_hand [] h s now = advance_street dlr h s
  idle_hand (pid ∷ pids) h s now = pure (start_next_action pid s now)

  abbrev pub acting_hand :
      Option String → HandState → GameState → Option ℕ → Action dlr.State (List GameEvent)
  acting_hand none h s now =
      if leb (non_folded_count s) 1
      then pure (end_hand_uncontested h s)
      else idle_hand h.pending_actions h s now
  acting_hand (some pid) h s now =
      if deadline_passed h.action_deadline now
      then pure (timeout_action h s pid)
      else if leb (non_folded_count s) 1
      then pure (end_hand_uncontested h s)
      else pure []

  unfoldable pub advance_hand : HandState → GameState → Option ℕ → Action dlr.State (List GameEvent)
  advance_hand h s now = acting_hand h.acting_player_id h s now
