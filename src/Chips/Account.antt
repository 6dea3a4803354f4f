-- ===== src/Chips/Account.antt =====
-- The chips on a table: every stack and the pot, as an int64.
use pace_poker.Prelude.{
  ℕ, ◌+◌, ◌%◌, Int64, String, Option, none, some, List, [], ◌∷◌, m64, add64, sub64, div64, mod64,
  length,
}
use pace_poker.Proto.{PlayerState, HandState, GameState, Event}
use pace_poker.Players.{get, total}

abbrev pub stack_of : PlayerState → ℕ
stack_of p = p.stack

abbrev pub pot_of : Option HandState → ℕ
pot_of none = 0
pot_of (some h) = h.pot

unfoldable pub chips : GameState → Int64
chips s = (total stack_of s.players + pot_of s.current_hand) % m64

-- A player's stack, 0 for nobody.
abbrev pub held : Option PlayerState → ℕ
held none = 0
held (some p) = p.stack

-- What a payment of `x` to `pid` adds: nothing where nobody has that id.
abbrev pub paid : Option PlayerState → Int64 → ℕ
paid none x = 0
paid (some p) x = x

-- A share for each name of the list that has a player.
abbrev pub paid_all : Int64 → List String → List (String × PlayerState) → ℕ
paid_all share [] ps = 0
paid_all share (w ∷ ws) ps = paid (get w ps) share + paid_all share ws ps

-- What an award of `x` pays out to the winners found in the map.
abbrev pub award_paid : Int64 → List String → List (String × PlayerState) → ℕ
award_paid x [] ps = 0
award_paid x (w ∷ ws) ps =
    paid (get w ps) (add64 (div64 x (length (w ∷ ws))) (mod64 x (length (w ∷ ws))))
    + paid_all (div64 x (length (w ∷ ws))) ws ps

-- What leaves the pot with an award or with the rake: nothing without a hand.
abbrev pub from_pot : Option HandState → Int64 → ℕ
from_pot none x = 0
from_pot (some h) x = x

-- The change of one player's stack to `x`.
abbrev pub reset_flow : Option PlayerState → Int64 → Int64
reset_flow none x = 0
reset_flow (some p) x = sub64 x p.stack

-- An all-in to `x` takes the whole stack, and moves `x` less the current bet.
abbrev pub all_in_flow : Option HandState → Option PlayerState → Int64 → Int64
all_in_flow (some h) (some p) x = sub64 x (p.current_bet + p.stack)
all_in_flow _ _ x = 0

-- The chips that an event brings to the table, modulo 2 ^ 64. An event that is not listed moves
-- chips between the stacks and the pot, or none.
unfoldable pub flow : GameState → Event → Int64
flow s (Event.player_joined p u n b) = sub64 b (held (get p s.players))
flow s (Event.player_left p c r) = sub64 0 (held (get p s.players))
flow s (Event.player_kicked p r) = sub64 0 (held (get p s.players))
flow s (Event.stack_topped_up p x new) = reset_flow (get p s.players) new
flow s (Event.auto_rebuy_triggered p x new) = reset_flow (get p s.players) new
flow s (Event.hand_started h n d sb bb small big) = sub64 0 (pot_of s.current_hand)
flow s (Event.player_all_in p x) = all_in_flow s.current_hand (get p s.players) x
flow s (Event.pot_awarded x [] cards desc) = 0
flow s (Event.pot_awarded x (w ∷ ws) cards desc) =
    sub64 (award_paid x (w ∷ ws) s.players) (from_pot s.current_hand x)
flow s (Event.rake_charged x) = sub64 0 (from_pot s.current_hand x)
flow s (Event.hand_ended n net) = sub64 0 (pot_of s.current_hand)
flow s (Event.buy_in_completed p x) = paid (get p s.players) x % m64
flow s _ = 0
