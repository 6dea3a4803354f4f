-- ===== src/Advance/Start.antt =====
-- `startNewHand` of internal/engine/advance.go: the events of a new hand, in order. `hand_id` is
-- the fresh UUID.
use pace_poker.Prelude.{
  ℕ, ◌+◌, ◌%◌, Int64, String, true, false, Option, none, some, List, [], ◌∷◌, ◌++◌, map, length,
  get_or, add64, lt64, min64, ◌==◌, if◌then◌else◌, ◌<>◌,
}
use pace_poker.Proto.{
  seat_unspecified, CashGameConfig, PlayerState, GameState, GameEvent, Event, bare,
}
use pace_poker.Cards.Dealer.{Dealer}
use pace_poker.Advance.Monad.{Action, ◌>>=◌, pure, wrapping}
use pace_poker.Advance.Active.{new_dealer_idx}

-- The value behind an index out of range, which does not arise: at least two players are active.
abbrev pub nobody : PlayerState
nobody = record {
  player_id = "";
  seat = 0;
  seat_status = seat_unspecified;
  stack = 0;
  current_bet = 0;
  total_committed_this_hand = 0;
  is_folded = false;
  is_all_in = false;
  is_sitting_out = false;
  time_bank_remaining = none;
  must_post_blind = false;
  disconnected_at = none;
  hole_card_1 = none;
  hole_card_2 = none;
}

-- A config field through its getter: 0 for a nil config.
abbrev pub config_amount : (CashGameConfig → Int64) → Option CashGameConfig → Int64
config_amount f none = 0
config_amount f (some c) = f c

-- The indices of the small and the big blind; heads-up the dealer is the small blind.
abbrev pub sb_index : ℕ → ℕ → ℕ
sb_index n d = if n == 2 then d else (d + 1) % n

abbrev pub bb_index : ℕ → ℕ → ℕ
bb_index n d = if n == 2 then (d + 1) % n else (d + 2) % n

abbrev pub ante_event : Int64 → PlayerState → GameEvent
ante_event ante p = bare (Event.ante_posted p.player_id (min64 ante p.stack))

abbrev pub ante_events : Int64 → List PlayerState → List GameEvent
ante_events ante ps = if lt64 0 ante then map (ante_event ante) ps else []

abbrev pub bb_ante_events : Int64 → PlayerState → List GameEvent
bb_ante_events ante bb = if lt64 0 ante then ante_event ante bb ∷ [] else []

abbrev pub blind_events : Int64 → Int64 → PlayerState → PlayerState → List GameEvent
blind_events small big sb bb =
    bare (Event.blind_posted sb.player_id (min64 small sb.stack) true false false)
    ∷ bare (Event.blind_posted bb.player_id (min64 big bb.stack) false true false)
    ∷ []

-- Two cards for each player, in seat order.
unfoldable pub deal_hole_cards :
    (dlr : Dealer) → List PlayerState → Action dlr.State (List GameEvent)
deal_hole_cards dlr [] = pure []
deal_hole_cards dlr (p ∷ ps) = do
  c1 ← wrapping ("deal to " <> p.player_id <> " card 1") dlr.deal
  c2 ← wrapping ("deal to " <> p.player_id <> " card 2") dlr.deal
  rest ← deal_hole_cards dlr ps
  pure (
      bare (Event.hole_cards_dealt p.player_id)
      ∷ bare (Event.hole_cards_revealed p.player_id c1 c2)
      ∷ rest)

-- Everything before the hole cards.
unfoldable pub opening_events : String → GameState → List PlayerState → List GameEvent
opening_events hand_id s active =
    let n = length active in
    let d = new_dealer_idx active s.dealer_seat s.hand_number in
    let dealer = get_or active d nobody in
    let sb = get_or active (sb_index n d) nobody in
    let bb = get_or active (bb_index n d) nobody in
    let small = config_amount (λ c. c.small_blind) s.config in
    let big = config_amount (λ c. c.big_blind) s.config in
    bare (
        Event.hand_started hand_id (add64 s.hand_number 1) dealer.player_id sb.player_id
          bb.player_id small big)
      ∷ ante_events (config_amount (λ c. c.ante) s.config) active
    ++ bb_ante_events (config_amount (λ c. c.bb_ante) s.config) bb
    ++ blind_events small big sb bb

unfoldable pub start_new_hand :
    (dlr : Dealer) → String → GameState → List PlayerState → Action dlr.State (List GameEvent)
start_new_hand dlr hand_id s active = do
  _ ← wrapping "shuffle" dlr.shuffle
  cards ← deal_hole_cards dlr active
  pure (opening_events hand_id s active ++ cards)
