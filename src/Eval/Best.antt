-- ===== src/Eval/Best.antt =====
-- `bestHand` of internal/engine/eval.go: the strongest five of a player's hole cards and the board.
use pace_poker.Prelude.{
  ℕ, zero, suc, ◌+◌, ◌-◌, String, not, Option, none, some, List, ◌∷◌, length, get_or, ltb, ◌==◌,
  if◌then◌else◌,
}
use pace_poker.Eval.Rank.{Five, five_of}
use pace_poker.Eval.Five.{eval5}

-- `playerHandEval`.
pub record HandEval : Type 0 where
  pub rank : ℕ
  pub best_five : Five
  pub desc : String

unfoldable pub eval_of : Five → HandEval
eval_of five = record { rank = (eval5 five).0; best_five = five; desc = (eval5 five).1 }

-- The cards at the indices.
abbrev pub pick : List ℕ → Five → Five
pick pool ix = record {
  at0 = get_or pool ix.at0 0;
  at1 = get_or pool ix.at1 0;
  at2 = get_or pool ix.at2 0;
  at3 = get_or pool ix.at3 0;
  at4 = get_or pool ix.at4 0;
}

-- The next combination of five indices below `n`: the last index that can still grow grows, and
-- those behind it follow on; none after the last combination.
unfoldable pub next_combination : ℕ → Five → Option Five
next_combination n ix =
    if not (ix.at4 == 4 + n - 5)
    then some (record ix { at4 = ix.at4 + 1 })
    else if not (ix.at3 == 3 + n - 5)
    then some (record ix { at3 = ix.at3 + 1; at4 = ix.at3 + 2 })
    else if not (ix.at2 == 2 + n - 5)
    then some (record ix { at2 = ix.at2 + 1; at3 = ix.at2 + 2; at4 = ix.at2 + 3 })
    else if not (ix.at1 == 1 + n - 5)
    then some (record ix { at1 = ix.at1 + 1; at2 = ix.at1 + 2; at3 = ix.at1 + 3; at4 = ix.at1 + 4 })
    else if not (ix.at0 == n - 5)
    then some (record {
      at0 = ix.at0 + 1;
      at1 = ix.at0 + 2;
      at2 = ix.at0 + 3;
      at3 = ix.at0 + 4;
      at4 = ix.at0 + 5;
    })
    else none

-- `if first || r > best`.
abbrev pub better : HandEval → HandEval → HandEval
better best e = if ltb best.rank e.rank then e else best

-- The loop after the combination `ix`, on fuel.
unfoldable pub best_from : ℕ → List ℕ → Five → HandEval → HandEval
best_from zero pool ix best = best
best_from (suc fuel) pool ix best = elim (next_combination (length pool) ix) [
  | none ↦ best
  | some ix' ↦ best_from fuel pool ix' (better best (eval_of (pick pool ix')))
]

abbrev pub first_indices : Five
first_indices = record { at0 = 0; at1 = 1; at2 = 2; at3 = 3; at4 = 4 }

-- Twenty more combinations follow the first where there are seven cards.
abbrev pub combination_fuel : ℕ
combination_fuel = 21

unfoldable pub best_hand : ℕ → ℕ → List ℕ → HandEval
best_hand c1 c2 board =
    let pool = c1 ∷ c2 ∷ board in
    if ltb (length pool) 5
    then eval_of (five_of pool)
    else best_from combination_fuel pool first_indices (eval_of (pick pool first_indices))
