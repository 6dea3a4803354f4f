-- ===== src/Showdown/Payout.antt =====
-- What the events of a showdown pay out (`endHandShowdown` of internal/engine/advance.go).
use pace_poker.Prelude.{
  ℕ, ◌+◌, ◌<◌, ◌≤◌, Int64, String, List, [], ◌∷◌, ◌++◌, map, ◌≡◌, refl, ap, sym, ◌∙◌, inl, inr,
  arith, lt64, le64, h64, Bool-cases,
}
use pace_poker.Proto.{HandState, GameState, GameEvent, Event}
use pace_poker.Players.{total}
use pace_poker.Pot.{compute_pots}
use pace_poker.Pot.Entries.{PotShare}
use pace_poker.Pot.Rake.{compute_rake}
use pace_poker.Pot.Total.{sum_pots, committed_of, compute_pots-total}
use pace_poker.Advance.Ending.{
  Evals, evals_for, board_cards, pot_winners, award_events, all_awards, side_pot_event,
  side_pot_events, rake_first, rake_events, showdown_events, hand_ended_event,
}

-- What an event takes from the pot for a winner or the house.
abbrev pub paid_by : Event → ℕ
paid_by (Event.pot_awarded x ws cards desc) = x
paid_by (Event.rake_charged x) = x
paid_by _ = 0

abbrev pub paid_out : List GameEvent → ℕ
paid_out [] = 0
paid_out (e ∷ es) = paid_by e.event + paid_out es

-- The pot has a winner.
abbrev pub IsWon : Evals → GameState → PotShare → Type 0
IsWon evals s p =
    (w : String) × (ws : List String) × ((pot_winners evals p.eligible_ids s).ids ≡ w ∷ ws)

abbrev pub AllWon : Evals → GameState → List PotShare → Type 0
AllWon evals s [] = Unit
AllWon evals s (p ∷ ps) = IsWon evals s p × AllWon evals s ps

paid_out-++ : (es fs : List GameEvent) → paid_out (es ++ fs) ≡ paid_out es + paid_out fs
paid_out-++ [] fs = omega arith
paid_out-++ (e ∷ es) fs = omega (arith, paid_out-++ es fs)

paid_out_of_four :
    (a b c d : List GameEvent)
    → paid_out (a ++ b ++ c ++ d) ≡ paid_out a + paid_out b + paid_out c + paid_out d
paid_out_of_four a b c d =
    omega (arith, paid_out-++ (a ++ b ++ c) d, paid_out-++ (a ++ b) c, paid_out-++ a b)

paid_out-side_pots : (ps : List PotShare) → paid_out (map side_pot_event ps) ≡ 0
paid_out-side_pots [] = refl
paid_out-side_pots (p ∷ ps) = omega (arith, paid_out-side_pots ps)

paid_out-side_pot_events : (ps : List PotShare) → paid_out (side_pot_events ps) ≡ 0
paid_out-side_pot_events [] = refl
paid_out-side_pot_events (p ∷ ps) = paid_out-side_pots ps

paid_out-rake_events : (rake : Int64) → rake < h64 → paid_out (rake_events rake) ≡ rake
paid_out-rake_events rake lt = ground arith

paid_out-award_events :
    (evals : Evals) (s : GameState) (p : PotShare)
    → p.amount < h64
    → IsWon evals s p
    → paid_out (award_events evals s p) ≡ p.amount
unfolding award_events
paid_out-award_events evals s p lt (w, ws, e) = elim (Bool-cases (le64 p.amount 0)) [
  | inl z ↦ rw z (ground arith)
  | inr nz ↦ rw (nz, e) (omega arith)
]

paid_out-all_awards :
    (evals : Evals) (s : GameState) (ps : List PotShare)
    → sum_pots ps < h64
    → AllWon evals s ps
    → paid_out (all_awards evals s ps) ≡ sum_pots ps
unfolding all_awards
paid_out-all_awards evals s [] lt h = refl
paid_out-all_awards evals s (p ∷ ps) lt (won, h) = omega (
  arith,
  paid_out-++ (award_events evals s p) (all_awards evals s ps),
  paid_out-award_events evals s p (omega arith) won,
  paid_out-all_awards evals s ps (omega arith) h,
)

rake_first-sum :
    (rake : Int64) (p : PotShare) (ps : List PotShare)
    → sum_pots (p ∷ ps) < h64
    → rake ≤ p.amount
    → sum_pots (rake_first rake (p ∷ ps)) + rake ≡ sum_pots (p ∷ ps)
rake_first-sum rake p ps lt le = elim (Bool-cases (lt64 0 rake)) [
  | inl y ↦ rw y (omega arith)
  | inr n ↦ rw n (ground arith)
]

AllWon-rake_first :
    (evals : Evals) (s : GameState) (rake : Int64) (ps : List PotShare)
    → AllWon evals s ps
    → AllWon evals s (rake_first rake ps)
AllWon-rake_first evals s rake [] h = tt
AllWon-rake_first evals s rake (p ∷ ps) (w, h) = elim (Bool-cases (lt64 0 rake)) [
  | inl y ↦ rw y (w, h)
  | inr n ↦ rw n (w, h)
]

-- The awards and the rake of given pots.
paid_out-pots :
    (evals : Evals) (s : GameState) (rake : Int64) (p : PotShare) (ps : List PotShare)
    → sum_pots (p ∷ ps) < h64
    → rake ≤ p.amount
    → AllWon evals s (p ∷ ps)
    → paid_out (all_awards evals s (rake_first rake (p ∷ ps))) + rake ≡ sum_pots (p ∷ ps)
paid_out-pots evals s rake p ps lt le won =
    let split = rake_first-sum rake p ps lt le in
    omega (
      arith,
      split,
      paid_out-all_awards evals s (rake_first rake (p ∷ ps)) (omega (arith, split))
          (AllWon-rake_first evals s rake (p ∷ ps) won),
    )

-- The awards and the rake of a showdown add up to exactly what the players have committed in the
-- hand: every committed chip is paid out once. The commitments together stay below 2 ^ 63, at least
-- one player has committed chips (the main pot is `p`), the rake is no more than the main pot, and
-- `potWinners` names somebody for each pot.
pub showdown_pays_committed :
    (h : HandState) (s : GameState) (live : List String) (p : PotShare) (ps : List PotShare)
    → compute_pots s ≡ p ∷ ps
    → total committed_of s.players < h64
    → compute_rake h.pot s.config ≤ p.amount
    → AllWon (evals_for (board_cards h) s.players live) s (p ∷ ps)
    → paid_out (showdown_events h s live) ≡ total committed_of s.players
unfolding showdown_events
showdown_pays_committed h s live p ps e lt le won =
    let evals = evals_for (board_cards h) s.players live in
    let rake = compute_rake h.pot s.config in
    let sum : sum_pots (p ∷ ps) ≡ total committed_of s.players =
      sym (ap sum_pots e) ∙ compute_pots-total s lt in
    let awards = all_awards evals s (rake_first rake (p ∷ ps)) in
    rw e (
      omega (
        arith,
        sum,
        paid_out-side_pot_events (p ∷ ps),
        paid_out_of_four (side_pot_events (p ∷ ps)) (rake_events rake) awards
            (hand_ended_event s ∷ []),
        paid_out-rake_events rake (omega (arith, sum)),
        paid_out-pots evals s rake p ps (omega (arith, sum)) le won,
      ))
