-- ===== src/Apply/Seats.antt =====
-- The cases of `Apply` (internal/engine/apply.go) for the table, its seats and its players.
use pace_poker.Prelude.{
  ℕ, Int32, Int64, String, true, false, Option, none, some, add64, if◌then◌else◌,
}
use pace_poker.Proto.{
  waiting, active, occupied, sitting_out, disconnected, CashGameConfig, PlayerState, GameState,
}
use pace_poker.Players.{put, delete, adjust}
use pace_poker.Apply.Order.{remove_string, remove_int32}

unfoldable pub apply_table_created : Option CashGameConfig → GameState → GameState
apply_table_created cfg s = record s { config = cfg; status = waiting }

unfoldable pub apply_table_resumed : GameState → GameState
apply_table_resumed s = record s {
  status = elim s.current_hand [ none ↦ waiting | some _ ↦ active ];
}

-- The player that a `PlayerJoined` seats.
abbrev pub new_player : String → Int32 → Int64 → PlayerState
new_player pid seat_no buy_in = record {
  player_id = pid;
  seat = seat_no;
  seat_status = occupied;
  stack = buy_in;
  current_bet = 0;
  total_committed_this_hand = 0;
  is_folded = false;
  is_all_in = false;
  is_sitting_out = false;
  time_bank_remaining = none;
  must_post_blind = false;
  disconnected_at = none;
  hole_card_1 = none;
  hole_card_2 = none;
}

unfoldable pub apply_player_joined : String → String → Int32 → Int64 → GameState → GameState
apply_player_joined pid uid seat_no buy_in s = record s {
  players = put pid (new_player pid seat_no buy_in) s.players;
  player_user_ids = put pid uid s.player_user_ids;
  reserved_seats = remove_int32 s.reserved_seats seat_no;
}

-- `PlayerLeft` and `PlayerKicked`.
unfoldable pub apply_player_left : String → GameState → GameState
apply_player_left pid s = record s {
  players = delete pid s.players;
  player_user_ids = delete pid s.player_user_ids;
  waiting_list = remove_string s.waiting_list pid;
}

abbrev pub sit_out_player : PlayerState → PlayerState
sit_out_player p = record p { is_sitting_out = true; seat_status = sitting_out }

abbrev pub sit_in_player : PlayerState → PlayerState
sit_in_player p = record p {
  is_sitting_out = false;
  seat_status = elim p.disconnected_at [ none ↦ occupied | some _ ↦ p.seat_status ];
}

abbrev pub disconnect_player : Option ℕ → PlayerState → PlayerState
disconnect_player at p = record p { disconnected_at = at; seat_status = disconnected }

abbrev pub reconnect_player : PlayerState → PlayerState
reconnect_player p = record p {
  disconnected_at = none;
  seat_status = if p.is_sitting_out then sitting_out else occupied;
}

-- The update of one player, where the case only writes through `next.Players[id]`.
unfoldable pub on_player : String → (PlayerState → PlayerState) → GameState → GameState
on_player pid f s = record s { players = adjust pid f s.players }

-- `StackToppedUp` and `AutoRebuyTriggered`.
abbrev pub set_stack : Int64 → PlayerState → PlayerState
set_stack x p = record p { stack = x }

abbrev pub add_stack : Int64 → PlayerState → PlayerState
add_stack x p = record p { stack = add64 p.stack x }

abbrev pub set_hole_cards : Option ℕ → Option ℕ → PlayerState → PlayerState
set_hole_cards c1 c2 p = record p { hole_card_1 = c1; hole_card_2 = c2 }
