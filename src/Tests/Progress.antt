-- ===== src/Tests/Progress.antt =====
-- Streets and rounds of the server, at the table of the examples.
use pace_poker.Prelude.{
  ℕ, Int64, String, false, none, some, List, [], ◌∷◌, ◌≡◌, refl, ◌⊎◌, arith, eq_iff,
}
use pace_poker.Proto.{GameState, GameEvent, Event, bare}
use pace_poker.Cards.Dealer.{ok, FixedDealer, fixed_dealer}
use pace_poker.Apply.{apply_all, apply, apply_event}
use pace_poker.Apply.Betting.{apply_player_folded}
use pace_poker.Apply.Order.{postflop_action_order}
use pace_poker.Apply.Street.{apply_flop_dealt}
use pace_poker.Advance.{advance, advance_loop, run_advance, max_steps}
use pace_poker.Advance.Active.{non_folded_player_ids, non_folded_count}
use pace_poker.Advance.Hand.{advance_hand, start_next_action}
use pace_poker.Rounds.Settled.{Runs, run_advance-Settles}
use pace_poker.Streets.Turns.{postflop_order-fold}
use pace_poker.Streets.AllIn.{EndsFor, flop_forfeits_all_in}
use pace_poker.Tests.{alice, bob, carol, flop_hand, table, table_of, seated}

postflop_order-fold_example :
    postflop_action_order (apply_player_folded "alice" table) "carol"
    ≡ postflop_action_order table "carol"
postflop_order-fold_example = postflop_order-fold "alice" "carol" table

-- Bob is all-in with the pot at stake, alice has chips behind.
abbrev bob_all_in : GameState
bob_all_in = table_of flop_hand alice (seated "bob" 2 0 10 30 false) carol

abbrev cards : FixedDealer
cards = record { cards = 1 ∷ 2 ∷ 3 ∷ []; pos = 0 }

flop_forfeits_all_in_example :
    EndsFor fixed_dealer (some 1) "alice" (apply_flop_dealt 4 5 6 bob_all_in)
flop_forfeits_all_in_example =
    flop_forfeits_all_in fixed_dealer (some 1) bob_all_in "alice" alice refl refl refl
      (ground (arith, eq_iff "alice" "")) 4 5 6 flop_hand refl

abbrev no_ids : Int64 → String
no_ids n = "h"

-- Nobody acts yet, and alice is the first who has to.
abbrev alice_next : GameState
alice_next = table_of (record flop_hand { acting_player_id = none }) alice bob carol

abbrev alice_starts : List GameEvent
alice_starts = bare (Event.action_started "alice" (some 30) (some 131)) ∷ []

runs_one_round :
    run_advance fixed_dealer no_ids alice_next (some 101) cards ≡ (ok alice_starts, cards)
unfolding run_advance advance_loop advance advance_hand non_folded_count non_folded_player_ids
    start_next_action apply_all apply apply_event
runs_one_round = refl

run_advance-Settles_example :
    (k : ℕ) × (d : FixedDealer) × Runs fixed_dealer no_ids
      (some 101)
      k
      alice_next
      cards
      alice_starts
      (apply_all alice_next alice_starts)
      d
    × (((k ≡ max_steps) × (d ≡ cards))
        ⊎ (advance fixed_dealer no_ids (apply_all alice_next alice_starts) (some 101) d
            ≡ (ok [], cards)))
run_advance-Settles_example =
    run_advance-Settles fixed_dealer no_ids (some 101) alice_next cards alice_starts cards
      runs_one_round
