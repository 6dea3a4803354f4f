-- ===== src/Tests/Payout.antt =====
-- A showdown of two players after the river, with the third folded.
use pace_poker.Prelude.{String, none, some, List, [], ◌∷◌, ◌≡◌, refl, arith, ◌≤◌, true}
use pace_poker.Proto.{HandState, GameState, HandPhase}
use pace_poker.Pot.{compute_pots, first_eligible_in_order}
use pace_poker.Pot.Entries.{PotShare, eligible_in_order}
use pace_poker.Pot.Rake.{compute_rake}
use pace_poker.Advance.Ending.{
  evals_for, board_cards, eval_player, pot_winners, leaders_from, showdown_events,
}
use pace_poker.Showdown.Payout.{AllWon, paid_out, showdown_pays_committed}
use pace_poker.Tests.{alice, bob, flop_hand, table_of, seated}

abbrev river_hand : HandState
river_hand = record flop_hand {
  phase = HandPhase.river;
  pot = 80;
  turn_card = some 30;
  river_card = some 40;
}

-- Nobody's cards are known, so each pot goes to its first eligible player.
abbrev river_table : GameState
river_table =
    table_of river_hand (record alice { hole_card_1 = none }) (record bob { hole_card_1 = none })
      (seated "carol" 3 0 0 30 true)

abbrev players : List String
players = "alice" ∷ "bob" ∷ []

abbrev main_pot : PotShare
main_pot = record { amount = 60; eligible_ids = players }

abbrev side_pot : PotShare
side_pot = record { amount = 20; eligible_ids = "bob" ∷ [] }

two_pots : compute_pots river_table ≡ main_pot ∷ side_pot ∷ []
unfolding compute_pots eligible_in_order
two_pots = refl

small_rake : compute_rake 80 river_table.config ≤ 60
unfolding compute_rake
small_rake = omega arith

pots_won :
    AllWon
      (evals_for (board_cards river_hand) river_table.players players)
      river_table
      (main_pot ∷ side_pot ∷ [])
unfolding evals_for eval_player pot_winners leaders_from first_eligible_in_order
pots_won = (("alice", [], refl), (("bob", [], refl), tt))

showdown_pays_committed_example : paid_out (showdown_events river_hand river_table players) ≡ 80
showdown_pays_committed_example =
    showdown_pays_committed river_hand river_table players main_pot (side_pot ∷ []) two_pots
      (omega arith) small_rake pots_won
