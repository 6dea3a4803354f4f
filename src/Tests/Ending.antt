-- ===== src/Tests/Ending.antt =====
-- The end of a hand and the deck, at the table of the examples.
use pace_poker.Prelude.{
  ℕ, ◌<◌, ◌≤◌, true, Option, some, [], ◌∷◌, ◌≡◌, refl, sub64, arith, eq_iff, inl,
}
use pace_poker.Proto.{GameState}
use pace_poker.Apply.{apply_all}
use pace_poker.Apply.Pots.{apply_pot_awarded}
use pace_poker.Chips.Account.{chips}
use pace_poker.Chips.Awards.{pot_awarded_moves}
use pace_poker.Chips.Ending.{end_hand_uncontested-chips}
use pace_poker.Pot.{compute_pots}
use pace_poker.Pot.Rake.{compute_rake}
use pace_poker.Pot.Total.{compute_pots-total, sum_pots}
use pace_poker.Pot.Eligible.{EachPot, MayWin, compute_pots-MayWin}
use pace_poker.Pot.RakeBounds.{compute_rake_bounds}
use pace_poker.Advance.Active.{non_folded_player_ids}
use pace_poker.Advance.Ending.{end_hand_uncontested, Evals, pot_winners}
use pace_poker.Eval.Best.{HandEval}
use pace_poker.Eval.Rank.{five_of}
use pace_poker.Showdown.Winners.{WinnersAreBest, pot_winners-WinnersAreBest}
use pace_poker.Cards.Deck.{Deck, crypto_shuffle}
use pace_poker.Decks.Shuffle.{InBounds, count, count-crypto_shuffle}
use pace_poker.Tests.{alice, bob, carol, flop_hand, table, table_of, settings, seated}

-- Bob has folded: alice is alone.
abbrev bob_folded : GameState
bob_folded = table_of flop_hand alice (seated "bob" 2 80 10 30 true) carol

alice_alone : non_folded_player_ids bob_folded ≡ "alice" ∷ []
unfolding non_folded_player_ids
alice_alone = refl

end_hand_uncontested-chips_example :
    chips (apply_all bob_folded (end_hand_uncontested flop_hand bob_folded))
    ≡ sub64 (chips bob_folded) (compute_rake 90 (some settings))
end_hand_uncontested-chips_example =
    end_hand_uncontested-chips flop_hand bob_folded "alice" [] refl (omega arith) alice_alone
      (ground (arith, eq_iff "alice" ""))

pot_awarded_moves_example : chips (apply_pot_awarded 87 ("alice" ∷ "bob" ∷ []) table) ≡ chips table
pot_awarded_moves_example =
    pot_awarded_moves 87 "alice" ("bob" ∷ []) table flop_hand (omega arith) refl
      ((alice, refl), ((bob, refl), tt))

compute_pots-total_example : sum_pots (compute_pots table) ≡ 90
compute_pots-total_example = compute_pots-total table (omega arith)

compute_rake_bounds_example :
    (compute_rake 90 (some settings) ≤ 90) × (0 < 3 → compute_rake 90 (some settings) ≤ 3)
compute_rake_bounds_example =
    compute_rake_bounds 90 settings (omega arith) (omega arith) (omega arith) (omega arith)

abbrev hand_of_rank : ℕ → HandEval
hand_of_rank r = record { rank = r; best_five = five_of []; desc = "" }

abbrev evals : Evals
evals = ("alice", hand_of_rank 5) ∷ ("bob", hand_of_rank 9) ∷ []

pot_winners-WinnersAreBest_example :
    WinnersAreBest evals ("alice" ∷ "bob" ∷ []) (pot_winners evals ("alice" ∷ "bob" ∷ []) table).ids
pot_winners-WinnersAreBest_example =
    pot_winners-WinnersAreBest evals ("alice" ∷ "bob" ∷ []) table "alice" (hand_of_rank 5)
      (inl refl) refl

abbrev first_card : ℕ → Option ℕ
first_card i = some 0

first_card-InBounds : InBounds first_card
first_card-InBounds i j e = ground arith

abbrev small_deck : Deck
small_deck = record { cards = 4 ∷ 8 ∷ 15 ∷ []; pos = 2 }

count-crypto_shuffle_example :
    (count 8 (crypto_shuffle first_card small_deck).1.cards ≡ 1)
    × ((crypto_shuffle first_card small_deck).1.pos ≡ 0)
count-crypto_shuffle_example =
    count-crypto_shuffle first_card small_deck 8 first_card-InBounds (omega arith)

compute_pots-MayWin_example : EachPot (MayWin table.players) (compute_pots table)
compute_pots-MayWin_example = compute_pots-MayWin table
