-- ===== src/Apply/Pots.antt =====
-- The cases of `Apply` (internal/engine/apply.go) for pots, rake and the end of a hand.
use pace_poker.Prelude.{
  Int64, String, none, List, [], ◌∷◌, ◌++◌, length, add64, sub64, div64, mod64,
}
use pace_poker.Proto.{GameStatus, waiting, active, PlayerState, GameState, HandPhase}
use pace_poker.Players.{adjust}
use pace_poker.Apply.Seats.{add_stack}
use pace_poker.Apply.Street.{on_hand}

unfoldable pub apply_side_pot_created : Int64 → List String → GameState → GameState
apply_side_pot_created x ids s =
    on_hand
      (λ h. record h {
        side_pots = h.side_pots ++ record { amount = x; eligible_player_ids = ids } ∷ [];
      })
      s

unfoldable pub apply_showdown : GameState → GameState
apply_showdown s = on_hand (λ h. record h { phase = HandPhase.showdown }) s

-- Each winner after the first is paid the share.
abbrev pub pay_share :
    Int64 → List String → List (String × PlayerState) → List (String × PlayerState)
pay_share share [] ps = ps
pay_share share (w ∷ ws) ps = pay_share share ws (adjust w (add_stack share) ps)

-- `PotAwarded`: the first winner is paid the share and the remainder.
unfoldable pub apply_pot_awarded : Int64 → List String → GameState → GameState
apply_pot_awarded amount [] s = s
apply_pot_awarded amount (w ∷ ws) s =
    let n = length (w ∷ ws) in
    let share = div64 amount n in
    on_hand (λ h. record h { pot = sub64 h.pot amount })
      (record s {
        players =
            pay_share share ws (adjust w (add_stack (add64 share (mod64 amount n))) s.players);
      })

unfoldable pub apply_rake_taken : Int64 → GameState → GameState
apply_rake_taken x s =
    on_hand (λ h. record h { rake_taken = add64 h.rake_taken x; pot = sub64 h.pot x }) s

abbrev pub waiting_if_active : GameStatus → GameStatus
waiting_if_active active = waiting
waiting_if_active status = status

unfoldable pub apply_hand_ended : Int64 → GameState → GameState
apply_hand_ended n s = record s {
  hand_number = n;
  current_hand = none;
  status = waiting_if_active s.status;
}
