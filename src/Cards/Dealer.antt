-- ===== src/Cards/Dealer.antt =====
-- internal/engine/dealer.go: the interface of a dealer and its two implementations. A method takes
-- the dealer's state and returns it with its result; an error is its text.
use pace_poker.Prelude.{
  ℕ, ◌+◌, ◌-◌, String, Bool, true, false, Option, none, some, List, length, get_or, leb,
  if◌then◌else◌,
}
use pace_poker.Cards.Deck.{Deck, new_deck, crypto_shuffle, draw, remaining}

pub data Result (A : Type 0) : Type 0 where
  ok : A → Result A
  err : String → Result A

pub record Dealer : Type 1 where
  pub State : Type 0
  pub shuffle : State → Result (Unit {0}) × State
  pub deal : State → Result ℕ × State
  pub burn : State → Result (Unit {0}) × State
  pub remaining : State → ℕ

abbrev out_of_cards : String
out_of_cards = "deck: no cards remaining"

abbrev drawn : Option ℕ × Deck → Result ℕ × Deck
drawn (none, d) = (err out_of_cards, d)
drawn (some c, d) = (ok c, d)

abbrev burnt : Option ℕ × Deck → Result (Unit {0}) × Deck
burnt (none, d) = (err out_of_cards, d)
burnt (some c, d) = (ok tt, d)

abbrev shuffled : Bool × Deck → Result (Unit {0}) × Deck
shuffled (true, d) = (ok tt, d)
shuffled (false, d) = (err "rand: read failed", d)

-- `CryptoDealer`, over one source of random numbers for its shuffles.
abbrev pub crypto_dealer : (ℕ → Option ℕ) → Dealer
crypto_dealer rand = record {
  State = Deck;
  shuffle = λ d. shuffled (crypto_shuffle rand new_deck);
  deal = λ d. drawn (draw d);
  burn = λ d. burnt (draw d);
  remaining = remaining;
}

pub record FixedDealer : Type 0 where
  pub cards : List ℕ
  pub pos : ℕ

abbrev fixed_out_of_cards : String
fixed_out_of_cards = "fixed dealer: out of cards"

abbrev fixed_deal : FixedDealer → Result ℕ × FixedDealer
fixed_deal f =
    if leb (length f.cards) f.pos
    then (err fixed_out_of_cards, f)
    else (ok (get_or f.cards f.pos 0), record f { pos = f.pos + 1 })

abbrev fixed_burn : FixedDealer → Result (Unit {0}) × FixedDealer
fixed_burn f =
    if leb (length f.cards) f.pos
    then (err fixed_out_of_cards, f)
    else (ok tt, record f { pos = f.pos + 1 })

-- `FixedDealer`: a given sequence, dealt again from its start after a shuffle.
abbrev pub fixed_dealer : Dealer
fixed_dealer = record {
  State = FixedDealer;
  shuffle = λ f. (ok tt, record f { pos = 0 });
  deal = fixed_deal;
  burn = fixed_burn;
  remaining = λ f. length f.cards - f.pos;
}
