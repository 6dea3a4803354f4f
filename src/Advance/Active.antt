-- ===== src/Advance/Active.antt =====
-- The helpers of internal/engine/advance.go that read the players.
use pace_poker.Prelude.{
  ℕ, ◌+◌, Int32, Int64, String, List, [], ◌∷◌, map, length, keep, sort_by, lt32, ◌==◌,
  if◌then◌else◌,
}
use pace_poker.Proto.{PlayerState, GameState}
use pace_poker.Players.{get}
use pace_poker.Apply.Order.{can_be_dealt}
use pace_poker.Pot.{is_live, action_order_of}

unfoldable pub active_players : GameState → List PlayerState
active_players s =
    sort_by (λ a b. lt32 a.seat b.seat) (keep can_be_dealt (map (λ e. e.1) s.players))

-- The index of the first seat after `seat`, counted from `i`, and 0 after the last.
abbrev pub after_seat : ℕ → List PlayerState → Int32 → ℕ
after_seat i [] dealer_seat = 0
after_seat i (p ∷ ps) dealer_seat =
    if lt32 dealer_seat p.seat then i else after_seat (i + 1) ps dealer_seat

unfoldable pub new_dealer_idx : List PlayerState → Int32 → Int64 → ℕ
new_dealer_idx active dealer_seat hand_number =
    if hand_number == 0 then 0 else after_seat 0 active dealer_seat

-- `nonFoldedPlayerIDs`: those of the action order who have a player that has not folded.
unfoldable pub non_folded_player_ids : GameState → List String
non_folded_player_ids s = keep (λ pid. is_live (get pid s.players)) (action_order_of s.current_hand)

unfoldable pub non_folded_count : GameState → ℕ
unfolding non_folded_player_ids
non_folded_count s = length (non_folded_player_ids s)
