-- ===== src/Chips/Reducer.antt =====
-- The reducer keeps the account of every event and of every sequence of events.
use pace_poker.Prelude.{
  ℕ, Int64, List, [], ◌∷◌, Option, none, some, ◌≡◌, refl, ap, arith, ◌∙◌, add64,
}
use pace_poker.Proto.{GameState, GameEvent, Event}
use pace_poker.Chips.Account.{chips, flow}
use pace_poker.Chips.Commit
use pace_poker.Chips.Seats
use pace_poker.Chips.Awards
use pace_poker.Chips.Streets
use pace_poker.Apply.Seats.{
  apply_table_created, apply_table_resumed, sit_out_player, sit_in_player, disconnect_player,
  reconnect_player, set_hole_cards,
}
use pace_poker.Apply.Street.{apply_second_board_dealt}
use pace_poker.Apply.Pots.{apply_side_pot_created, apply_showdown, apply_pot_awarded}
use pace_poker.Apply.{apply_event, apply, apply_all, next_version}

-- A sum that stays is a sum to which 0 is added.
add_nothing : (s t : GameState) → chips t ≡ chips s → chips t ≡ add64 (chips s) 0
unfolding chips
add_nothing s t e = omega arith

apply_event-flow :
    (e : Event) (at : Option ℕ) (s : GameState)
    → chips (apply_event e at s) ≡ add64 (chips s) (flow s e)
unfolding apply_event flow
apply_event-flow (Event.player_joined p u n b) at s = Seats.player_joined-chips p u n b s
apply_event-flow (Event.player_left p c r) at s = Seats.player_left-chips p s
apply_event-flow (Event.player_kicked p r) at s = Seats.player_left-chips p s
apply_event-flow (Event.stack_topped_up p x new) at s = Seats.set_stack-chips p new s
apply_event-flow (Event.auto_rebuy_triggered p x new) at s = Seats.set_stack-chips p new s
apply_event-flow (Event.buy_in_completed p x) at s = Seats.add_stack-chips p x s
apply_event-flow (Event.hand_started h n d sb bb small big) at s =
    Streets.hand_started-chips h d sb bb big at s
apply_event-flow (Event.player_all_in p x) at s = Commit.player_all_in-chips p x s
apply_event-flow (Event.pot_awarded x [] cards desc) at s =
    add_nothing s _ (unfold apply_pot_awarded in refl)
apply_event-flow (Event.pot_awarded x (w ∷ ws) cards desc) at s = Awards.pot_awarded-chips x w ws s
apply_event-flow (Event.rake_charged x) at s = Awards.rake_taken-chips x s
apply_event-flow (Event.hand_ended n net) at s = Awards.hand_ended-chips n s
apply_event-flow (Event.blind_posted p x a b c) at s =
    add_nothing s _ (Commit.blind_posted-chips p x b c s)
apply_event-flow (Event.ante_posted p x) at s = add_nothing s _ (Commit.ante_posted-chips p x s)
apply_event-flow (Event.straddle_posted p x) at s =
    add_nothing s _ (Commit.straddle_posted-chips p x s)
apply_event-flow (Event.player_folded p) at s = add_nothing s _ (Commit.player_folded-chips p s)
apply_event-flow (Event.player_checked p) at s = add_nothing s _ (Commit.player_checked-chips p s)
apply_event-flow (Event.player_called p x) at s = add_nothing s _ (Commit.player_called-chips p x s)
apply_event-flow (Event.player_bet p x) at s = add_nothing s _ (Commit.player_bet-chips p x s)
apply_event-flow (Event.player_raised p x y) at s =
    add_nothing s _ (Commit.player_raised-chips p x y s)
apply_event-flow (Event.flop_dealt a b c) at s = add_nothing s _ (Streets.flop_dealt-chips s a b c)
apply_event-flow (Event.turn_dealt c) at s = add_nothing s _ (Streets.turn_dealt-chips s c)
apply_event-flow (Event.river_dealt c) at s = add_nothing s _ (Streets.river_dealt-chips s c)
apply_event-flow (Event.betting_round_ended ph x) at s =
    add_nothing s _ (Streets.betting_round_ended-chips s)
apply_event-flow (Event.second_board_dealt a b) at s =
    add_nothing s _ (unfold apply_second_board_dealt in Commit.on_hand-chips _ s (λ h. refl))
apply_event-flow (Event.side_pot_created x ids) at s =
    add_nothing s _ (unfold apply_side_pot_created in Commit.on_hand-chips _ s (λ h. refl))
apply_event-flow (Event.showdown_reached ids) at s =
    add_nothing s _ (unfold apply_showdown in Commit.on_hand-chips _ s (λ h. refl))
apply_event-flow (Event.action_started p t d) at s =
    add_nothing s _ (Commit.on_hand-chips _ s (λ h. refl))
apply_event-flow (Event.player_sat_out p) at s =
    add_nothing s _ (Seats.on_player-chips p sit_out_player s (λ q. refl))
apply_event-flow (Event.player_sat_in p) at s =
    add_nothing s _ (Seats.on_player-chips p sit_in_player s (λ q. refl))
apply_event-flow (Event.player_disconnected p) at s =
    add_nothing s _ (Seats.on_player-chips p (disconnect_player at) s (λ q. refl))
apply_event-flow (Event.player_reconnected p) at s =
    add_nothing s _ (Seats.on_player-chips p reconnect_player s (λ q. refl))
apply_event-flow (Event.seat_changed p a b) at s =
    add_nothing s _ (Seats.on_player-chips p (λ q. record q { seat = b }) s (λ q. refl))
apply_event-flow (Event.hole_cards_revealed p a b) at s =
    add_nothing s _ (Seats.on_player-chips p (set_hole_cards (some a) (some b)) s (λ q. refl))
apply_event-flow (Event.player_showed_cards p a b) at s =
    add_nothing s _ (Seats.on_player-chips p (set_hole_cards (some a) (some b)) s (λ q. refl))
apply_event-flow (Event.player_mucked_cards p) at s =
    add_nothing s _ (Seats.on_player-chips p (set_hole_cards none none) s (λ q. refl))
apply_event-flow (Event.time_bank_used p a b) at s =
    add_nothing s _
      (Seats.on_player-chips p (λ q. record q { time_bank_remaining = b }) s (λ q. refl))
apply_event-flow (Event.table_created cfg) at s =
    add_nothing s _ (unfold apply_table_created chips in refl)
apply_event-flow Event.table_resumed at s =
    add_nothing s _ (unfold apply_table_resumed chips in refl)
apply_event-flow _ at s = add_nothing s _ (unfold chips in refl)

flow-next_version :
    (e : GameEvent) (s : GameState) (v : Event) → flow (next_version e s) v ≡ flow s v
unfolding flow
flow-next_version e s (Event.pot_awarded x [] cards desc) = refl
flow-next_version e s (Event.pot_awarded x (w ∷ ws) cards desc) = refl
flow-next_version e s _ = refl

-- After any event, in any state, the chips on the table (every stack and the pot) are those before
-- it plus what the account `flow` says that the event brings, modulo 2 ^ 64.
pub apply-flow :
    (s : GameState) (e : GameEvent) → chips (apply s e) ≡ add64 (chips s) (flow s e.event)
unfolding apply
apply-flow s e =
    apply_event-flow e.event e.occurred_at (next_version e s)
    ∙ ap (λ (x : ℕ). add64 (chips (next_version e s)) x) (flow-next_version e s e.event)
    ∙ unfold chips in refl

-- What a sequence of events brings, each in the state that it meets.
unfoldable pub flow_all : GameState → List GameEvent → Int64
flow_all s [] = 0
flow_all s (e ∷ es) = add64 (flow s e.event) (flow_all (apply s e) es)

-- Replaying any sequence of events changes the chips on the table by the sum of what the events
-- bring, modulo 2 ^ 64.
pub apply_all-flow :
    (s : GameState) (es : List GameEvent) → chips (apply_all s es) ≡ add64 (chips s) (flow_all s es)
unfolding apply_all flow_all
apply_all-flow s [] = unfold chips in omega arith
apply_all-flow s (e ∷ es) = omega (arith, apply_all-flow (apply s e) es, apply-flow s e)
