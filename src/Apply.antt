-- ===== src/Apply.antt =====
-- The reducer: `Apply` and `applyAll` of internal/engine/apply.go. The type switch is
-- `apply_event`, its cases the functions of the children; `occurred_at` is the envelope's time.
pub mod Order
pub mod Seats
pub mod Street
pub mod Betting
pub mod Pots
pub mod Cases
use pace_poker.Prelude.{
  ℕ, Bool, Option, none, some, List, [], ◌∷◌, ◌++◌, add64, lt64, if◌then◌else◌,
}
use pace_poker.Proto.{
  GameState, GameEvent, Event, table_created, table_closed, table_paused, table_resumed,
  player_joined, player_left, player_sat_out, player_sat_in, player_disconnected,
  player_reconnected, player_kicked, waiting_list_joined, waiting_list_left, seat_changed,
  stack_topped_up, auto_rebuy_triggered, hand_started, blind_posted, ante_posted, straddle_posted,
  hole_cards_revealed, flop_dealt, turn_dealt, river_dealt, second_board_dealt, player_folded,
  player_checked, player_called, player_bet, player_raised, player_all_in, player_showed_cards,
  player_mucked_cards, action_started, time_bank_used, betting_round_ended, side_pot_created,
  showdown_reached, pot_awarded, rake_charged, hand_ended, buy_in_completed, GameStatus,
  seat_reservation_cancelled,
}
use Order.{remove_string, remove_int32}
use Seats.{
  apply_table_created, apply_table_resumed, apply_player_joined, apply_player_left, on_player,
  sit_out_player, sit_in_player, disconnect_player, reconnect_player, set_stack, add_stack,
  set_hole_cards,
}
use Street.{
  on_hand, apply_hand_started, apply_flop_dealt, apply_turn_dealt, apply_river_dealt,
  apply_second_board_dealt, apply_betting_round_ended,
}
use Betting.{
  apply_blind_posted, apply_ante_posted, apply_straddle_posted, apply_player_folded,
  apply_player_checked, apply_player_called, apply_player_bet, apply_player_raised,
  apply_player_all_in,
}
use Pots.{
  apply_side_pot_created, apply_showdown, apply_pot_awarded, apply_rake_taken, apply_hand_ended,
}

unfoldable pub apply_event : Event → Option ℕ → GameState → GameState
apply_event (table_created cfg) at s = apply_table_created cfg s
apply_event (table_closed r) at s = record s { status = GameStatus.closed }
apply_event (table_paused r) at s = record s { status = GameStatus.paused }
apply_event table_resumed at s = apply_table_resumed s
apply_event (Event.seat_reserved p n x) at s = record s {
  reserved_seats = s.reserved_seats ++ n ∷ [];
}
apply_event (seat_reservation_cancelled p n r) at s = record s {
  reserved_seats = remove_int32 s.reserved_seats n;
}
apply_event (player_joined p u n b) at s = apply_player_joined p u n b s
apply_event (player_left p c r) at s = apply_player_left p s
apply_event (player_sat_out p) at s = on_player p sit_out_player s
apply_event (player_sat_in p) at s = on_player p sit_in_player s
apply_event (player_disconnected p) at s = on_player p (disconnect_player at) s
apply_event (player_reconnected p) at s = on_player p reconnect_player s
apply_event (player_kicked p r) at s = apply_player_left p s
apply_event (waiting_list_joined p n) at s = record s { waiting_list = s.waiting_list ++ p ∷ [] }
apply_event (waiting_list_left p) at s = record s { waiting_list = remove_string s.waiting_list p }
apply_event (seat_changed p a b) at s = on_player p (λ q. record q { seat = b }) s
apply_event (stack_topped_up p x new) at s = on_player p (set_stack new) s
apply_event (auto_rebuy_triggered p x new) at s = on_player p (set_stack new) s
apply_event (hand_started h n d sb bb small big) at s = apply_hand_started h d sb bb big at s
apply_event (blind_posted p x is_small is_big is_dead) at s =
    apply_blind_posted p x is_big is_dead s
apply_event (ante_posted p x) at s = apply_ante_posted p x s
apply_event (straddle_posted p x) at s = apply_straddle_posted p x s
apply_event (hole_cards_revealed p c1 c2) at s = on_player p (set_hole_cards (some c1) (some c2)) s
apply_event (flop_dealt c1 c2 c3) at s = apply_flop_dealt c1 c2 c3 s
apply_event (turn_dealt c) at s = apply_turn_dealt c s
apply_event (river_dealt c) at s = apply_river_dealt c s
apply_event (second_board_dealt t r) at s = apply_second_board_dealt t r s
apply_event (player_folded p) at s = apply_player_folded p s
apply_event (player_checked p) at s = apply_player_checked p s
apply_event (player_called p x) at s = apply_player_called p x s
apply_event (player_bet p x) at s = apply_player_bet p x s
apply_event (player_raised p to by) at s = apply_player_raised p to by s
apply_event (player_all_in p x) at s = apply_player_all_in p x s
apply_event (player_showed_cards p c1 c2) at s = on_player p (set_hole_cards (some c1) (some c2)) s
apply_event (player_mucked_cards p) at s = on_player p (set_hole_cards none none) s
apply_event (action_started p t deadline) at s =
    on_hand (λ h. record h { acting_player_id = some p; action_deadline = deadline }) s
apply_event (time_bank_used p used rest) at s =
    on_player p (λ q. record q { time_bank_remaining = rest }) s
apply_event (betting_round_ended ph x) at s = apply_betting_round_ended s
apply_event (side_pot_created x ids) at s = apply_side_pot_created x ids s
apply_event (showdown_reached ids) at s = apply_showdown s
apply_event (pot_awarded x ws cards desc) at s = apply_pot_awarded x ws s
apply_event (rake_charged x) at s = apply_rake_taken x s
apply_event (hand_ended n net) at s = apply_hand_ended n s
apply_event (buy_in_completed p x) at s = on_player p (add_stack x) s
apply_event other at s = s

-- The clone's version: the event's own, when it has one.
abbrev pub next_version : GameEvent → GameState → GameState
next_version e s = record s {
  version = if lt64 0 e.state_version then e.state_version else add64 s.version 1;
}

unfoldable pub apply : GameState → GameEvent → GameState
apply s e = apply_event e.event e.occurred_at (next_version e s)

unfoldable pub apply_all : GameState → List GameEvent → GameState
apply_all s [] = s
apply_all s (e ∷ es) = apply_all (apply s e) es
