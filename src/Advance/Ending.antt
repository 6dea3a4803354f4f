-- ===== src/Advance/Ending.antt =====
-- `endHandUncontested`, `endHandShowdown` and `potWinners` of internal/engine/advance.go.
use pace_poker.Prelude.{
  ℕ, ◌%◌, Int64, String, Option, none, some, List, [], ◌∷◌, ◌++◌, map, add64, sub64, lt64, le64,
  ltb, ◌==◌, str_eq, if◌then◌else◌,
}
use pace_poker.Proto.{PlayerState, HandState, GameState, GameEvent, Event, bare}
use pace_poker.Players.{get}
use pace_poker.Eval.Rank.{list_of}
use pace_poker.Eval.Best.{HandEval, best_hand}
use pace_poker.Pot.{compute_pots, first_eligible_in_order}
use pace_poker.Pot.Entries.{PotShare}
use pace_poker.Pot.Rake.{compute_rake}
use pace_poker.Advance.Active.{non_folded_player_ids}

abbrev pub rake_events : Int64 → List GameEvent
rake_events rake = if lt64 0 rake then bare (Event.rake_charged rake) ∷ [] else []

abbrev pub hand_ended_event : GameState → GameEvent
hand_ended_event s = bare (Event.hand_ended (add64 s.hand_number 1) [])

-- The events that end a hand with the pot, less the rake, for one winner.
abbrev pub uncontested_events : String → HandState → GameState → List GameEvent
uncontested_events w h s =
    rake_events (compute_rake h.pot s.config)
    ++ bare (Event.pot_awarded (sub64 h.pot (compute_rake h.pot s.config)) (w ∷ []) [] "")
      ∷ hand_ended_event s
      ∷ []

-- Everyone but the winner has folded: the first of the action order who has not wins, and nothing
-- happens where there is nobody.
unfoldable pub end_hand_uncontested : HandState → GameState → List GameEvent
end_hand_uncontested h s = elim (non_folded_player_ids s) [
  | [] ↦ []
  | w ∷ ws ↦ if str_eq w "" then [] else uncontested_events w h s
]

abbrev pub card_at : Option ℕ → ℕ
card_at none = 0
card_at (some c) = c

abbrev pub flop_cards : HandState → List ℕ
flop_cards h = elim h.flop_card_1 [
  | none ↦ []
  | some c1 ↦ c1 ∷ card_at h.flop_card_2 ∷ card_at h.flop_card_3 ∷ []
]

abbrev pub card_list : Option ℕ → List ℕ
card_list none = []
card_list (some c) = c ∷ []

-- `boardCards`; the three flop cards are set together.
unfoldable pub board_cards : HandState → List ℕ
board_cards h = flop_cards h ++ card_list h.turn_card ++ card_list h.river_card

-- The evaluation of one player: none without both hole cards.
unfoldable pub eval_player : List ℕ → Option PlayerState → Option HandEval
eval_player board none = none
eval_player board (some p) = elim p.hole_card_1 [
  | none ↦ none
  | some c1 ↦ elim p.hole_card_2 [ none ↦ none | some c2 ↦ some (best_hand c1 c2 board) ]
]

abbrev pub Evals : Type 0
Evals = List (String × HandEval)

-- The map `evals`.
unfoldable pub evals_for : List ℕ → List (String × PlayerState) → List String → Evals
evals_for board ps [] = []
evals_for board ps (pid ∷ pids) = elim (eval_player board (get pid ps)) [
  | none ↦ evals_for board ps pids
  | some e ↦ (pid, e) ∷ evals_for board ps pids
]

-- The best hand so far and the players who hold it; none before the first.
abbrev pub Leaders : Type 0
Leaders = Option (HandEval × List String)

abbrev pub contend : Leaders → String → HandEval → Leaders
contend none pid e = some (e, pid ∷ [])
contend (some (best, winners)) pid e =
    if ltb best.rank e.rank
    then some (e, pid ∷ [])
    else if e.rank == best.rank
    then some (best, winners ++ pid ∷ [])
    else some (best, winners)

abbrev pub consider : Leaders → String → Option HandEval → Leaders
consider lead pid none = lead
consider lead pid (some e) = contend lead pid e

-- The loop of `potWinners`.
unfoldable pub leaders_from : Evals → List String → Leaders → Leaders
leaders_from evals [] lead = lead
leaders_from evals (pid ∷ pids) lead = leaders_from evals pids (consider lead pid (get pid evals))

-- The winners of a pot, the winning five as bytes and the description.
pub record Winners : Type 0 where
  pub ids : List String
  pub five : List ℕ
  pub text : String

abbrev pub no_cards : List ℕ
no_cards = 0 ∷ 0 ∷ 0 ∷ 0 ∷ 0 ∷ []

abbrev pub fallback_ids : String → List String
fallback_ids w = if str_eq w "" then [] else w ∷ []

unfoldable pub pot_winners : Evals → List String → GameState → Winners
pot_winners evals eligible s = elim (leaders_from evals eligible none) [
  | none ↦ record {
    ids = fallback_ids (first_eligible_in_order s eligible);
    five = no_cards;
    text = "";
  }
  | some (best, winners) ↦ record {
    ids = winners;
    five = map (λ c. c % 256) (list_of best.best_five);
    text = best.desc;
  }
]

-- The award of one pot: none for an amount that is not positive, or with no winner.
unfoldable pub award_events : Evals → GameState → PotShare → List GameEvent
award_events evals s p =
    if le64 p.amount 0 then [] else elim (pot_winners evals p.eligible_ids s).ids [
      | [] ↦ []
      | w ∷ ws ↦
          bare (
            Event.pot_awarded p.amount (w ∷ ws) (pot_winners evals p.eligible_ids s).five
              (pot_winners evals p.eligible_ids s).text)
          ∷ []
    ]

unfoldable pub all_awards : Evals → GameState → List PotShare → List GameEvent
all_awards evals s [] = []
all_awards evals s (p ∷ ps) = award_events evals s p ++ all_awards evals s ps

abbrev pub side_pot_event : PotShare → GameEvent
side_pot_event p = bare (Event.side_pot_created p.amount p.eligible_ids)

-- `pots[1:]`, announced.
abbrev pub side_pot_events : List PotShare → List GameEvent
side_pot_events [] = []
side_pot_events (p ∷ ps) = map side_pot_event ps

-- `pots[0].amount -= rake`.
abbrev pub rake_first : Int64 → List PotShare → List PotShare
rake_first rake [] = []
rake_first rake (p ∷ ps) =
    (if lt64 0 rake then record p { amount = sub64 p.amount rake } else p) ∷ ps

-- The fallback where no commitment is recorded: one pot of the hand's total.
abbrev pub or_whole_pot : HandState → List String → List PotShare → List PotShare
or_whole_pot h live [] = record { amount = h.pot; eligible_ids = live } ∷ []
or_whole_pot h live (p ∷ ps) = p ∷ ps

-- The events of a showdown among the players `live`.
unfoldable pub showdown_events : HandState → GameState → List String → List GameEvent
showdown_events h s live =
    let evals = evals_for (board_cards h) s.players live in
    let pots = or_whole_pot h live (compute_pots s) in
    let rake = compute_rake h.pot s.config in
    bare (Event.showdown_reached live) ∷ side_pot_events pots
    ++ rake_events rake
    ++ all_awards evals s (rake_first rake pots)
    ++ hand_ended_event s ∷ []

unfoldable pub end_hand_showdown : HandState → GameState → List GameEvent
end_hand_showdown h s = elim (non_folded_player_ids s) [
  | [] ↦ []
  | w ∷ ws ↦ showdown_events h s (w ∷ ws)
]
