-- ===== src/Cards/Deck.antt =====
-- internal/deck/deck.go: an ordered deck and its position. The shuffle reads crypto/rand, which is
-- the argument `rand`: `rand i` is the number that the call with the bound i + 1 gives, or none
-- for its error.
use pace_poker.Prelude.{
  ℕ, zero, suc, ◌+◌, ◌-◌, Bool, true, false, Option, none, some, List, [], ◌∷◌, length, get_or, leb,
  if◌then◌else◌,
}

pub record Deck : Type 0 where
  pub cards : List ℕ
  pub pos : ℕ

abbrev pub size : ℕ
size = 52

abbrev pub count_up : ℕ → ℕ → List ℕ
count_up i zero = []
count_up i (suc k) = i ∷ count_up (i + 1) k

unfoldable pub new_deck : Deck
new_deck = record { cards = count_up 0 size; pos = 0 }

-- A write out of bounds changes nothing; the shuffle's indices are in bounds.
abbrev pub set : List ℕ → ℕ → ℕ → List ℕ
set [] i v = []
set (x ∷ xs) zero v = v ∷ xs
set (x ∷ xs) (suc i) v = x ∷ set xs i v

-- `cards[i], cards[j] = cards[j], cards[i]`.
unfoldable pub swap : List ℕ → ℕ → ℕ → List ℕ
swap xs i j = set (set xs i (get_or xs j 0)) j (get_or xs i 0)

-- The loop from the index `i` down to 1. An error stops it with the swaps done so far.
unfoldable pub shuffle_from : (ℕ → Option ℕ) → ℕ → List ℕ → Bool × List ℕ
shuffle_from rand zero xs = (true, xs)
shuffle_from rand (suc i) xs = elim (rand (suc i)) [
  | none ↦ (false, xs)
  | some j ↦ shuffle_from rand i (swap xs (suc i) j)
]

unfoldable pub crypto_shuffle : (ℕ → Option ℕ) → Deck → Bool × Deck
crypto_shuffle rand d =
    let (done, xs) = shuffle_from rand (length d.cards - 1) d.cards in
    (done, record { cards = xs; pos = 0 })

-- The next card, or none where the deck is out of cards.
unfoldable pub draw : Deck → Option ℕ × Deck
draw d =
    if leb (length d.cards) d.pos
    then (none, d)
    else (some (get_or d.cards d.pos 0), record d { pos = d.pos + 1 })

unfoldable pub remaining : Deck → ℕ
remaining d = length d.cards - d.pos
