-- ===== src/Eval/Rank.antt =====
-- The comparable rank of internal/engine/eval.go: a category and five tiebreakers packed into a
-- uint64, and the parts of a card.
use Prim.Native.Nat.{bit_or}
use pace_poker.Prelude.{
  ℕ, ◌*◌, ◌/◌, ◌%◌, ◌^◌, String, List, [], ◌∷◌, get_or, m64, ltb, if◌then◌else◌,
}

pub data HandCat : Type 0 where
  high_card one_pair two_pair three_of_a_kind straight flush full_house four_of_a_kind : HandCat
  straight_flush : HandCat

-- The value of the constant.
abbrev pub cat_code : HandCat → ℕ
cat_code high_card = 0
cat_code one_pair = 1
cat_code two_pair = 2
cat_code three_of_a_kind = 3
cat_code straight = 4
cat_code flush = 5
cat_code full_house = 6
cat_code four_of_a_kind = 7
cat_code straight_flush = 8

-- A Go array of five.
pub record Five : Type 0 where
  pub at0 : ℕ
  pub at1 : ℕ
  pub at2 : ℕ
  pub at3 : ℕ
  pub at4 : ℕ

-- `[5]T{…}` from the first elements of a list, 0 where they run out.
abbrev pub five_of : List ℕ → Five
five_of xs = record {
  at0 = get_or xs 0 0;
  at1 = get_or xs 1 0;
  at2 = get_or xs 2 0;
  at3 = get_or xs 3 0;
  at4 = get_or xs 4 0;
}

abbrev pub list_of : Five → List ℕ
list_of f = f.at0 ∷ f.at1 ∷ f.at2 ∷ f.at3 ∷ f.at4 ∷ []

-- `x << k` on a uint64.
abbrev pub shl : ℕ → ℕ → ℕ
shl x k = (x * 2 ^ k) % m64

unfoldable pub new_hand_rank : HandCat → Five → ℕ
new_hand_rank cat tb =
    let v0 = shl (cat_code cat) 60 in
    let v1 = bit_or v0 (shl tb.at0 56) in
    let v2 = bit_or v1 (shl tb.at1 52) in
    let v3 = bit_or v2 (shl tb.at2 48) in
    let v4 = bit_or v3 (shl tb.at3 44) in bit_or v4 (shl tb.at4 40)

abbrev pub card_rank : ℕ → ℕ
card_rank c = c % 13

abbrev pub card_suit : ℕ → ℕ
card_suit c = c / 13

abbrev rank_singular : List String
rank_singular =
    "2" ∷ "3" ∷ "4" ∷ "5" ∷ "6" ∷ "7" ∷ "8" ∷ "9" ∷ "10" ∷ "Jack" ∷ "Queen" ∷ "King" ∷ "Ace" ∷ []

abbrev rank_plural : List String
rank_plural =
    "Twos" ∷ "Threes" ∷ "Fours" ∷ "Fives" ∷ "Sixes" ∷ "Sevens" ∷ "Eights" ∷ "Nines" ∷ "Tens"
    ∷ "Jacks" ∷ "Queens" ∷ "Kings" ∷ "Aces" ∷ []

unfoldable pub rank_name : ℕ → String
rank_name r = if ltb r 13 then get_or rank_singular r "?" else "?"

unfoldable pub rank_name_plural : ℕ → String
rank_name_plural r = if ltb r 13 then get_or rank_plural r "?" else "?"
