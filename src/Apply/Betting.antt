-- ===== src/Apply/Betting.antt =====
-- The cases of `Apply` (internal/engine/apply.go) that move chips from a stack to the pot, and the
-- player actions.
use pace_poker.Prelude.{
  Int64, String, Bool, true, ◌||◌, not, none, some, List, [], keep, contains, add64, sub64, add32,
  lt64, le64, ◌==◌, if◌then◌else◌,
}
use pace_poker.Proto.{PlayerState, HandState, GameState}
use pace_poker.Players.{get, put, adjust}
use pace_poker.Apply.Order.{remove_string, others_in_order}
use pace_poker.Apply.Street.{in_hand, on_hand}

-- `p := next.Players[id]; if p == nil { break }`, inside a hand.
abbrev pub in_seat : GameState → String → (HandState → PlayerState → GameState) → GameState
in_seat s pid k = in_hand s λ h. elim (get pid s.players) [ none ↦ s | some p ↦ k h p ]

-- The state with one player and the hand written back.
abbrev pub write : GameState → String → PlayerState → HandState → GameState
write s pid p h = record s { players = put pid p s.players; current_hand = some h }

-- The player has acted: no longer pending, and nobody is acting.
abbrev pub acted : String → HandState → HandState
acted pid h = record h {
  pending_actions = remove_string h.pending_actions pid;
  acting_player_id = none;
}

-- `p.Stack -= amount; p.TotalCommittedThisHand += amount`.
abbrev pub commit : Int64 → PlayerState → PlayerState
commit amount p = record p {
  stack = sub64 p.stack amount;
  total_committed_this_hand = add64 p.total_committed_this_hand amount;
}

abbrev pub raise_highest : Int64 → HandState → HandState
raise_highest bet h =
    if lt64 h.current_highest_bet bet then record h { current_highest_bet = bet } else h

-- A dead blind goes to the pot and not to the current bet.
abbrev pub blind_player : Int64 → Bool → PlayerState → PlayerState
blind_player amount is_dead p =
    if is_dead
    then commit amount p
    else record (commit amount p) { current_bet = add64 p.current_bet amount }

-- The hand after a live blind that made the poster's current bet `bet`.
abbrev pub live_blind_hand : Int64 → Bool → Int64 → HandState → HandState
live_blind_hand amount is_big bet h =
    let h1 = raise_highest bet h in
    if is_big then record h1 { min_raise_amount = amount; last_raise_amount = amount } else h1

abbrev pub blind_hand : Int64 → Bool → Bool → Int64 → HandState → HandState
blind_hand amount is_big is_dead bet h =
    let h1 = record h { pot = add64 h.pot amount } in
    if is_dead then h1 else live_blind_hand amount is_big bet h1

unfoldable pub apply_blind_posted : String → Int64 → Bool → Bool → GameState → GameState
apply_blind_posted pid amount is_big is_dead s = in_seat s pid λ h p.
    write s pid (blind_player amount is_dead p)
      (blind_hand amount is_big is_dead (add64 p.current_bet amount) h)

unfoldable pub apply_ante_posted : String → Int64 → GameState → GameState
apply_ante_posted pid amount s =
    in_seat s pid λ h p. write s pid (commit amount p) (record h { pot = add64 h.pot amount })

abbrev pub straddle_hand : Int64 → Int64 → HandState → HandState
straddle_hand amount bet h =
    let h1 = record h { pot = add64 h.pot amount } in
    if lt64 h.current_highest_bet bet
    then record h1 { current_highest_bet = bet; min_raise_amount = amount }
    else h1

unfoldable pub apply_straddle_posted : String → Int64 → GameState → GameState
apply_straddle_posted pid amount s = in_seat s pid λ h p.
    let bet = add64 p.current_bet amount in
    write s pid (record (commit amount p) { current_bet = bet }) (straddle_hand amount bet h)

abbrev pub fold_player : PlayerState → PlayerState
fold_player p = record p { is_folded = true }

unfoldable pub apply_player_folded : String → GameState → GameState
apply_player_folded pid s =
    on_hand (acted pid) (record s { players = adjust pid fold_player s.players })

unfoldable pub apply_player_checked : String → GameState → GameState
apply_player_checked pid s = on_hand (acted pid) s

-- `if p.Stack == 0 { p.IsAllIn = true }`.
abbrev pub mark_all_in : PlayerState → PlayerState
mark_all_in p = if p.stack == 0 then record p { is_all_in = true } else p

unfoldable pub apply_player_called : String → Int64 → GameState → GameState
apply_player_called pid amount s = in_seat s pid λ h p.
    write s pid
      (mark_all_in (record (commit amount p) { current_bet = add64 p.current_bet amount }))
      (acted pid (record h { pot = add64 h.pot amount }))

-- A bet or a full raise to `to`, by `raise_by` over the previous highest bet: everyone else who
-- can act is pending again.
abbrev pub reopen : Int64 → Int64 → HandState → HandState
reopen to raise_by h = record h {
  current_highest_bet = to;
  last_raise_amount = raise_by;
  min_raise_amount = raise_by;
  last_full_raise_to = to;
  action_closed_for = [];
  raises_this_street = add32 h.raises_this_street 1;
}

-- `PendingActions = othersInOrder(next, id)`, which reads the players already written.
abbrev pub pend_others : String → GameState → GameState
pend_others pid s =
    let others = others_in_order s pid in
    on_hand (λ h. record h { pending_actions = others; acting_player_id = none }) s

unfoldable pub apply_player_bet : String → Int64 → GameState → GameState
apply_player_bet pid amount s = in_seat s pid λ h p.
    let delta = sub64 amount p.current_bet in
    pend_others pid (
      write s pid (record (commit delta p) { current_bet = amount })
        (reopen amount (sub64 amount h.current_highest_bet) (record h { pot = add64 h.pot delta })))

unfoldable pub apply_player_raised : String → Int64 → Int64 → GameState → GameState
apply_player_raised pid to raise_by s = in_seat s pid λ h p.
    let delta = sub64 to p.current_bet in
    pend_others pid (
      write s pid (mark_all_in (record (commit delta p) { current_bet = to }))
        (reopen to raise_by (record h { pot = add64 h.pot delta })))

-- The players whose raise a sub-minimum all-in leaves closed: those of `others` who are not
-- pending, the actor aside.
abbrev pub closed_for : String → List String → List String → List String
closed_for actor pending others =
    keep (λ pid. not (contains (remove_string pending actor) pid)) others

-- The part of the `PlayerAllIn` case that raises the bet.
unfoldable pub all_in_raise : String → Int64 → List String → HandState → HandState
all_in_raise actor amount others h =
    let raise_by = sub64 amount h.current_highest_bet in
    let h1 = record h {
      current_highest_bet = amount;
      last_raise_amount = raise_by;
      min_raise_amount = raise_by;
      raises_this_street = add32 h.raises_this_street 1;
    } in
    record (if h.last_raise_amount == 0 || le64 h.last_raise_amount raise_by
      then record h1 { last_full_raise_to = amount; action_closed_for = [] }
      else record h1 { action_closed_for = closed_for actor h.pending_actions others }) {
        pending_actions = others;
        acting_player_id = none;
      }

abbrev pub all_in_player : Int64 → PlayerState → PlayerState
all_in_player amount p = record p {
  stack = 0;
  current_bet = amount;
  total_committed_this_hand = add64 p.total_committed_this_hand (sub64 amount p.current_bet);
  is_all_in = true;
}

abbrev pub all_in_hand : String → Int64 → List String → HandState → HandState
all_in_hand actor amount others h =
    if lt64 h.current_highest_bet amount then all_in_raise actor amount others h else acted actor h

unfoldable pub apply_player_all_in : String → Int64 → GameState → GameState
unfolding all_in_raise
apply_player_all_in actor amount s = in_seat s actor λ h p.
    let h1 = record h { pot = add64 h.pot (sub64 amount p.current_bet) } in
    let s1 = write s actor (all_in_player amount p) h1 in
    record s1 { current_hand = some (all_in_hand actor amount (others_in_order s1 actor) h1) }
