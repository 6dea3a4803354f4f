-- ===== src/Eval/Five.antt =====
-- `eval5` of internal/engine/eval.go: the rank and the description of exactly five cards.
use pace_poker.Prelude.{
  ℕ, String, Bool, ◌&&◌, List, [], ◌∷◌, map, ltb, ◌==◌, sort_by, if◌then◌else◌, ◌<>◌,
}
use pace_poker.Eval.Rank.{
  HandCat, high_card, one_pair, two_pair, three_of_a_kind, straight, flush, full_house,
  four_of_a_kind, straight_flush, Five, five_of, list_of, new_hand_rank, card_rank, card_suit,
  rank_name, rank_name_plural,
}
use pace_poker.Eval.Groups.{Group, groups_of, spread, detect_straight}

abbrev pub sorted_ranks : Five → List ℕ
sorted_ranks cards = sort_by (λ a b. ltb b a) (map card_rank (list_of cards))

abbrev pub is_flush : Five → Bool
is_flush c =
    card_suit c.at0 == card_suit c.at1
    && card_suit c.at1 == card_suit c.at2
    && card_suit c.at2 == card_suit c.at3
    && card_suit c.at3 == card_suit c.at4

abbrev no_group : Group
no_group = record { rank = 0; count = 0 }

abbrev first_group : List Group → Group
first_group [] = no_group
first_group (g ∷ gs) = g

abbrev second_group : List Group → Group
second_group [] = no_group
second_group (g ∷ gs) = first_group gs

-- What the switch of `eval5` reads.
pub record Shape : Type 0 where
  pub flushed : Bool
  pub straight_high : Bool × ℕ
  pub top : Group
  pub second : Group

unfoldable pub shape_of : Five → Shape
shape_of cards =
    let ranks = sorted_ranks cards in
    let groups = groups_of ranks in
    record {
      flushed = is_flush cards;
      straight_high = detect_straight (five_of ranks);
      top = first_group groups;
      second = second_group groups;
    }

-- The category that the switch picks.
unfoldable pub category : Shape → HandCat
category sh =
    if sh.flushed && sh.straight_high.0
    then straight_flush
    else if sh.top.count == 4
    then four_of_a_kind
    else if sh.top.count == 3 && sh.second.count == 2
    then full_house
    else if sh.flushed
    then flush
    else if sh.straight_high.0
    then straight
    else if sh.top.count == 3
    then three_of_a_kind
    else if sh.top.count == 2 && sh.second.count == 2
    then two_pair
    else if sh.top.count == 2
    then one_pair
    else high_card

-- The tiebreakers of the case: the high card of a straight, the ranks of a flush, and the groups
-- spread out otherwise.
unfoldable pub tiebreaks : HandCat → Shape → List ℕ → Five
tiebreaks straight_flush sh ranks = five_of (sh.straight_high.1 ∷ [])
tiebreaks straight sh ranks = five_of (sh.straight_high.1 ∷ [])
tiebreaks flush sh ranks = five_of ranks
tiebreaks cat sh ranks = five_of (spread (groups_of ranks))

abbrev high_rank : List ℕ → ℕ
high_rank [] = 0
high_rank (r ∷ rs) = r

-- The text of the case.
unfoldable pub description : HandCat → Shape → List ℕ → String
description straight_flush sh ranks =
    if sh.straight_high.1 == 12
    then "Royal Flush"
    else "Straight Flush, " <> rank_name sh.straight_high.1 <> "-high"
description four_of_a_kind sh ranks = "Four " <> rank_name_plural sh.top.rank
description full_house sh ranks =
    "Full House, " <> rank_name_plural sh.top.rank <> " full of " <> rank_name_plural sh.second.rank
description flush sh ranks = "Flush, " <> rank_name (high_rank ranks) <> "-high"
description straight sh ranks = "Straight, " <> rank_name sh.straight_high.1 <> "-high"
description three_of_a_kind sh ranks = "Three " <> rank_name_plural sh.top.rank
description two_pair sh ranks =
    "Two Pair, " <> rank_name_plural sh.top.rank <> " and " <> rank_name_plural sh.second.rank
description one_pair sh ranks = "Pair of " <> rank_name_plural sh.top.rank
description high_card sh ranks = "High Card, " <> rank_name (high_rank ranks)

unfoldable pub eval5 : Five → ℕ × String
unfolding shape_of category tiebreaks description
eval5 cards =
    let ranks = sorted_ranks cards in
    let sh = shape_of cards in
    let cat = category sh in (new_hand_rank cat (tiebreaks cat sh ranks), description cat sh ranks)
