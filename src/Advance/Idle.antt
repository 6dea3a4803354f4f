-- ===== src/Advance/Idle.antt =====
-- Between hands: `advanceIdle` of internal/engine/advance.go. `hand_ids n` is the UUID drawn for
-- the hand that follows hand number n.
use pace_poker.Prelude.{
  ◌%◌, Int32, Int64, String, Bool, ◌&&◌, not, Option, none, some, List, [], ◌∷◌, map, keep, length,
  lt32, m32, ◌==◌, if◌then◌else◌,
}
use pace_poker.Proto.{
  GameStatus, waiting, active, CashGameConfig, PlayerState, GameState, GameEvent, Event, bare,
}
use pace_poker.Cards.Dealer.{Dealer}
use pace_poker.Advance.Monad.{Action, pure}
use pace_poker.Advance.Active.{active_players}
use pace_poker.Advance.Start.{start_new_hand}

abbrev pub is_busted : PlayerState → Bool
is_busted p = p.stack == 0 && not p.is_sitting_out

abbrev pub sat_out_event : String × PlayerState → GameEvent
sat_out_event e = bare (Event.player_sat_out e.1.player_id)

unfoldable pub sit_out_busted : GameState → List GameEvent
sit_out_busted s = map sat_out_event (keep (λ e. is_busted e.1) s.players)

abbrev pub min_players : Option CashGameConfig → Int32
min_players none = 2
min_players (some c) = if lt32 c.min_players_to_start 2 then 2 else c.min_players_to_start

module _ (dlr : Dealer) (hand_ids : Int64 → String) where
  unfoldable pub start_if_enough : GameState → Action dlr.State (List GameEvent)
  start_if_enough s =
      if lt32 (length (active_players s) % m32) (min_players s.config)
      then pure []
      else start_new_hand dlr (hand_ids s.hand_number) s (active_players s)

  abbrev pub sit_out_or_start : List GameEvent → GameState → Action dlr.State (List GameEvent)
  sit_out_or_start [] s = start_if_enough s
  sit_out_or_start (e ∷ es) s = pure (e ∷ es)

  abbrev pub idle_status : GameStatus → GameState → Action dlr.State (List GameEvent)
  idle_status waiting s = sit_out_or_start (sit_out_busted s) s
  idle_status active s = sit_out_or_start (sit_out_busted s) s
  idle_status _ s = pure []

  unfoldable pub advance_idle : GameState → Action dlr.State (List GameEvent)
  advance_idle s = idle_status s.status s
