-- ===== src/Apply/Street.antt =====
-- The cases of `Apply` (internal/engine/apply.go) that begin a hand, deal the board and close a
-- betting round, and `resetStreetState`.
use pace_poker.Prelude.{
  ℕ, Int64, String, false, Option, none, some, List, [], ◌∷◌, ◌++◌, ◌==◌, if◌then◌else◌,
}
use pace_poker.Proto.{active, preflop, HandPhase, CashGameConfig, PlayerState, HandState, GameState}
use pace_poker.Players.{get, map_values}
use pace_poker.Apply.Order.{preflop_action_order, postflop_action_order}

-- `if next.CurrentHand == nil { break }`.
abbrev pub in_hand : GameState → (HandState → GameState) → GameState
in_hand s k = elim s.current_hand [ none ↦ s | some h ↦ k h ]

-- The update of the current hand alone.
abbrev pub on_hand : (HandState → HandState) → GameState → GameState
on_hand f s = in_hand s (λ h. record s { current_hand = some (f h) })

abbrev pub clear_for_hand : PlayerState → PlayerState
clear_for_hand p = record p {
  is_folded = false;
  is_all_in = false;
  current_bet = 0;
  total_committed_this_hand = 0;
  hole_card_1 = none;
  hole_card_2 = none;
}

abbrev pub new_hand : String → String → String → String → Option ℕ → Int64 → List String → HandState
new_hand hand dealer sb bb at big order = record {
  hand_id = hand;
  dealer_player_id = dealer;
  small_blind_player_id = sb;
  big_blind_player_id = bb;
  pot = 0;
  rake_taken = 0;
  phase = preflop;
  current_highest_bet = 0;
  last_raise_amount = 0;
  min_raise_amount = big;
  raises_this_street = 0;
  acting_player_id = none;
  action_deadline = none;
  flop_card_1 = none;
  flop_card_2 = none;
  flop_card_3 = none;
  turn_card = none;
  river_card = none;
  second_board = [];
  side_pots = [];
  pending_actions = order;
  action_order = order;
  started_at = at;
  last_full_raise_to = 0;
  action_closed_for = [];
}

unfoldable pub apply_hand_started :
    String → String → String → String → Int64 → Option ℕ → GameState → GameState
apply_hand_started hand dealer sb bb big at s =
    let s1 = record s { players = map_values clear_for_hand s.players } in
    record s1 {
      current_hand = some (new_hand hand dealer sb bb at big (preflop_action_order s1 dealer bb));
      status = active;
      dealer_seat = elim (get dealer s1.players) [ none ↦ s.dealer_seat | some p ↦ p.seat ];
    }

abbrev pub clear_bet : PlayerState → PlayerState
clear_bet p = record p { current_bet = 0 }

abbrev pub config_big_blind : Option CashGameConfig → Int64
config_big_blind none = 0
config_big_blind (some c) = c.big_blind

-- The hand of a new street, with the order in which its players act.
abbrev pub reset_hand : Int64 → List String → HandState → HandState
reset_hand big order h = record h {
  current_highest_bet = 0;
  last_raise_amount = 0;
  min_raise_amount = big;
  last_full_raise_to = 0;
  action_closed_for = [];
  raises_this_street = 0;
  acting_player_id = none;
  action_order = order;
  pending_actions = order;
}

-- `resetStreetState`, on a hand that already shows the new card and phase.
unfoldable pub reset_street_state : HandState → GameState → GameState
reset_street_state h s =
    let s1 = record s { players = map_values clear_bet s.players; current_hand = some h } in
    let order = postflop_action_order s1 h.dealer_player_id in
    record s1 { current_hand = some (reset_hand (config_big_blind s.config) order h) }

unfoldable pub apply_flop_dealt : ℕ → ℕ → ℕ → GameState → GameState
apply_flop_dealt c1 c2 c3 s = in_hand s λ h.
    reset_street_state
      (record h {
        flop_card_1 = some c1;
        flop_card_2 = some c2;
        flop_card_3 = some c3;
        phase = HandPhase.flop;
      })
      s

unfoldable pub apply_turn_dealt : ℕ → GameState → GameState
apply_turn_dealt c s =
    in_hand s λ h. reset_street_state (record h { turn_card = some c; phase = HandPhase.turn }) s

unfoldable pub apply_river_dealt : ℕ → GameState → GameState
apply_river_dealt c s =
    in_hand s λ h. reset_street_state (record h { river_card = some c; phase = HandPhase.river }) s

unfoldable pub apply_second_board_dealt : ℕ → ℕ → GameState → GameState
apply_second_board_dealt t r s =
    on_hand
      (λ h. record h {
        second_board = (if t == 0 then h.second_board else h.second_board ++ t ∷ []) ++ r ∷ [];
      })
      s

unfoldable pub apply_betting_round_ended : GameState → GameState
apply_betting_round_ended s = in_hand s λ h. record s {
  players = map_values clear_bet s.players;
  current_hand = some (record h {
    current_highest_bet = 0;
    last_raise_amount = 0;
    last_full_raise_to = 0;
    action_closed_for = [];
    raises_this_street = 0;
    acting_player_id = none;
    pending_actions = [];
  });
}
