-- ===== src/Tests/Hands.antt =====
-- The evaluation of hands, on concrete cards.
use pace_poker.Prelude.{◌<◌, [], ◌∷◌, map, arith}
use pace_poker.Eval.Rank.{HandCat, Five, five_of, new_hand_rank}
use pace_poker.Eval.Best.{best_hand}
use pace_poker.Showdown.Strongest.{IsStrongestOf, choose, best_hand-IsStrongestOf}
use pace_poker.Showdown.Nibbles.{LessHand, AreNibbles, new_hand_rank-LessHand}

best_hand-IsStrongestOf_example :
    IsStrongestOf
      (best_hand 12 25 (1 ∷ 2 ∷ 3 ∷ 38 ∷ 51 ∷ []))
      (map five_of (choose 5 (12 ∷ 25 ∷ 1 ∷ 2 ∷ 3 ∷ 38 ∷ 51 ∷ [])))
best_hand-IsStrongestOf_example = best_hand-IsStrongestOf 12 25 1 2 3 38 51

abbrev aces_over_kings : Five
aces_over_kings = five_of (12 ∷ 12 ∷ 11 ∷ 11 ∷ 5 ∷ [])

abbrev aces_over_queens : Five
aces_over_queens = five_of (12 ∷ 12 ∷ 10 ∷ 10 ∷ 9 ∷ [])

kings_small : AreNibbles aces_over_kings
kings_small = (omega arith, omega arith, omega arith, omega arith, omega arith)

queens_small : AreNibbles aces_over_queens
queens_small = (omega arith, omega arith, omega arith, omega arith, omega arith)

new_hand_rank-LessHand_example :
    (new_hand_rank HandCat.two_pair aces_over_queens
        < new_hand_rank HandCat.two_pair aces_over_kings
      → LessHand HandCat.two_pair aces_over_queens HandCat.two_pair aces_over_kings)
    × (LessHand HandCat.two_pair aces_over_queens HandCat.two_pair aces_over_kings
        → new_hand_rank HandCat.two_pair aces_over_queens
          < new_hand_rank HandCat.two_pair aces_over_kings)
new_hand_rank-LessHand_example =
    new_hand_rank-LessHand HandCat.two_pair HandCat.two_pair aces_over_queens aces_over_kings
      queens_small kings_small
