-- ===== src/Chips/Streets.antt =====
-- The start of a hand, the board and the end of a betting round touch no stack; a new hand begins
-- with an empty pot.
use pace_poker.Prelude.{ℕ, Int64, String, Option, some, ◌≡◌, refl, ap, arith, add64, sub64}
use pace_poker.Proto.{HandState, GameState}
use pace_poker.Players.{map_values, total}
use pace_poker.Players.Laws.{total-map_values}
use pace_poker.Chips.Account.{chips, stack_of, pot_of}
use pace_poker.Apply.Cases.{in_hand_cases}
use pace_poker.Apply.Street

pub hand_started-chips :
    (hand d sb bb : String) (big : Int64) (at : Option ℕ) (s : GameState)
    → chips (Street.apply_hand_started hand d sb bb big at s)
      ≡ add64 (chips s) (sub64 0 (pot_of s.current_hand))
unfolding Street.apply_hand_started chips
hand_started-chips hand d sb bb big at s =
    omega (arith, total-map_values stack_of Street.clear_for_hand s.players (λ p. refl))

-- The stacks with every current bet cleared.
clear_bet-stacks :
    (s : GameState)
    → total stack_of (map_values Street.clear_bet s.players) ≡ total stack_of s.players
clear_bet-stacks s = total-map_values stack_of Street.clear_bet s.players (λ p. refl)

reset_street_state-chips :
    (h h' : HandState) (s : GameState)
    → s.current_hand ≡ some h
    → h'.pot ≡ h.pot
    → chips (Street.reset_street_state h' s) ≡ chips s
unfolding Street.reset_street_state chips
reset_street_state-chips h h' s e eo = omega (arith, clear_bet-stacks s, eo, ap pot_of e)

module _ (s : GameState) where
  abbrev Same : GameState → Type 0
  Same t = chips t ≡ chips s

  pub flop_dealt-chips : (a b c : ℕ) → chips (Street.apply_flop_dealt a b c s) ≡ chips s
  unfolding Street.apply_flop_dealt
  flop_dealt-chips a b c =
      in_hand_cases Same s _ (λ _. refl) (λ h e. reset_street_state-chips h _ s e refl)

  pub turn_dealt-chips : (c : ℕ) → chips (Street.apply_turn_dealt c s) ≡ chips s
  unfolding Street.apply_turn_dealt
  turn_dealt-chips c =
      in_hand_cases Same s _ (λ _. refl) (λ h e. reset_street_state-chips h _ s e refl)

  pub river_dealt-chips : (c : ℕ) → chips (Street.apply_river_dealt c s) ≡ chips s
  unfolding Street.apply_river_dealt
  river_dealt-chips c =
      in_hand_cases Same s _ (λ _. refl) (λ h e. reset_street_state-chips h _ s e refl)

  pub betting_round_ended-chips : chips (Street.apply_betting_round_ended s) ≡ chips s
  unfolding Street.apply_betting_round_ended chips
  betting_round_ended-chips =
      in_hand_cases Same s _ (λ _. refl) (λ h e. omega (arith, clear_bet-stacks s, ap pot_of e))
