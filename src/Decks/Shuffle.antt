-- ===== src/Decks/Shuffle.antt =====
-- The shuffle of internal/deck/deck.go moves cards and changes none.
use pace_poker.Prelude.{
  ℕ, zero, suc, ◌+◌, ◌-◌, ◌<◌, ◌≤◌, Option, some, List, [], ◌∷◌, ◌≡◌, refl, ap, ◌∙◌, arith, length,
  get_or, ◌==◌, if◌then◌else◌, inl, inr, Option-cases,
}
use pace_poker.Cards.Deck.{Deck, set, swap, shuffle_from, crypto_shuffle}

-- How often a card occurs.
abbrev pub count : ℕ → List ℕ → ℕ
count c [] = 0
count c (x ∷ xs) = (if x == c then 1 else 0) + count c xs

abbrev one_if : ℕ → ℕ → ℕ
one_if c x = if x == c then 1 else 0

length-set : (xs : List ℕ) (i v : ℕ) → length (set xs i v) ≡ length xs
length-set [] i v = refl
length-set (x ∷ xs) zero v = refl
length-set (x ∷ xs) (suc i) v = ap (λ (n : ℕ). suc n) (length-set xs i v)

count-set :
    (c : ℕ) (xs : List ℕ) (i v : ℕ)
    → i < length xs
    → count c (set xs i v) + one_if c (get_or xs i 0) ≡ count c xs + one_if c v
count-set c [] i v lt = absurd (omega arith)
count-set c (x ∷ xs) zero v lt = omega arith
count-set c (x ∷ xs) (suc i) v lt = omega (arith, count-set c xs i v (omega arith))

get_or-set :
    (xs : List ℕ) (i j v : ℕ)
    → i < length xs
    → get_or (set xs i v) j 0 ≡ (if i == j then v else get_or xs j 0)
get_or-set [] i j v lt = absurd (omega arith)
get_or-set (x ∷ xs) zero zero v lt = refl
get_or-set (x ∷ xs) zero (suc j) v lt = ground arith
get_or-set (x ∷ xs) (suc i) zero v lt = ground arith
get_or-set (x ∷ xs) (suc i) (suc j) v lt = ground (arith, get_or-set xs i j v (omega arith))

length-swap : (xs : List ℕ) (i j : ℕ) → length (swap xs i j) ≡ length xs
unfolding swap
length-swap xs i j = length-set (set xs i (get_or xs j 0)) j _ ∙ length-set xs i _

count-swap :
    (c : ℕ) (xs : List ℕ) (i j : ℕ)
    → i < length xs
    → j < length xs
    → count c (swap xs i j) ≡ count c xs
unfolding swap
count-swap c xs i j li lj = ground (
  arith,
  count-set c xs i (get_or xs j 0) li,
  count-set c (set xs i (get_or xs j 0)) j (get_or xs i 0)
      (omega (arith, length-set xs i (get_or xs j 0))),
  get_or-set xs i j (get_or xs j 0) li,
)

-- The random numbers are those asked for: the call with the bound i + 1 gives at most i.
abbrev pub InBounds : (ℕ → Option ℕ) → Type 0
InBounds rand = (i j : ℕ) → rand i ≡ some j → j ≤ i

count-shuffle_from :
    (rand : ℕ → Option ℕ) (c n : ℕ) (xs : List ℕ)
    → InBounds rand
    → n < length xs
    → count c (shuffle_from rand n xs).1 ≡ count c xs
unfolding shuffle_from
count-shuffle_from rand c zero xs b lt = refl
count-shuffle_from rand c (suc n) xs b lt = elim (Option-cases (rand (suc n))) [
  | inl e ↦ rw (shuffle_from, e) refl
  | inr (j, e) ↦
      let lj : j ≤ suc n = b (suc n) j e in
      rw (shuffle_from, e)
        (count-shuffle_from rand c n (swap xs (suc n) j) b (omega (arith, length-swap xs (suc n) j))
          ∙ count-swap c xs (suc n) j lt (omega arith))
]

-- A shuffle keeps every card as often as it was in the deck, also when the source of random numbers
-- fails on the way, and starts the deck again. The deck is not empty, and the random numbers are
-- within their bounds.
pub count-crypto_shuffle :
    (rand : ℕ → Option ℕ) (d : Deck) (c : ℕ)
    → InBounds rand
    → 0 < length d.cards
    → (count c (crypto_shuffle rand d).1.cards ≡ count c d.cards)
      × ((crypto_shuffle rand d).1.pos ≡ 0)
unfolding crypto_shuffle
count-crypto_shuffle rand d c b lt =
    (count-shuffle_from rand c (length d.cards - 1) d.cards b (omega arith), refl)
