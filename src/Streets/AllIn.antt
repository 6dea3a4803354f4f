-- ===== src/Streets/AllIn.antt =====
-- The board is dealt while all but one of the players have no chips behind: what `resetStreetState`
-- (internal/engine/apply.go) makes of the action order, and what `advanceHand`
-- (internal/engine/advance.go) then does.
use pace_poker.Prelude.{
  ℕ, String, true, false, Option, none, some, List, [], ◌∷◌, ◌≡◌, ◌≢◌, refl, ap, arith, keep, inl,
  inr, Bool-cases, eq_iff,
}
use pace_poker.Proto.{PlayerState, HandState, GameState}
use pace_poker.Players.{get, map_values}
use pace_poker.Cards.Dealer.{Dealer, ok}
use pace_poker.Apply.Order.{
  can_be_dealt, seated_active_players_by_seats, postflop_action_order, rotate_after, rotate_from,
}
use pace_poker.Apply.Street.{
  clear_bet, reset_hand, config_big_blind, reset_street_state, apply_flop_dealt,
}
use pace_poker.Apply.Cases.{in_hand_cases}
use pace_poker.Pot.{is_live}
use pace_poker.Advance.Active.{non_folded_count}
use pace_poker.Advance.Ending.{uncontested_events, end_hand_uncontested}
use pace_poker.Advance.Hand.{advance_hand}

keep-map_values :
    (ps : List (String × PlayerState))
    → keep (λ e. can_be_dealt e.1) (map_values clear_bet ps)
      ≡ map_values clear_bet (keep (λ e. can_be_dealt e.1) ps)
keep-map_values [] = refl
keep-map_values ((j, p) ∷ ps) = elim (Bool-cases (can_be_dealt p)) [
  | inl e ↦ rw e (ap (◌∷◌ (j, clear_bet p)) (keep-map_values ps))
  | inr e ↦ rw e (keep-map_values ps)
]

get-map_values :
    (k : String) (f : PlayerState → PlayerState) (p : PlayerState)
    (ps : List (String × PlayerState))
    → get k ps ≡ some p
    → get k (map_values f ps) ≡ some (f p)
get-map_values k f p [] e = ground arith
get-map_values k f p ((j, q) ∷ ps) e = ground (arith, get-map_values k f p ps)

rotate_one : (w target : String) → rotate_after (w ∷ []) target ≡ w ∷ []
unfolding rotate_after rotate_from
rotate_one w target = ground arith

-- One player alone has chips behind and sits in.
abbrev OnlyOneBehind : GameState → String → PlayerState → Type 0
OnlyOneBehind s w p = keep (λ e. can_be_dealt e.1) s.players ≡ (w, p) ∷ []

order_alone :
    (s : GameState) (h : HandState) (w : String) (p : PlayerState) (dealer : String)
    → OnlyOneBehind s w p
    → postflop_action_order
        (record s { players = map_values clear_bet s.players; current_hand = some h })
        dealer
      ≡ w ∷ []
unfolding postflop_action_order seated_active_players_by_seats
order_alone s h w p dealer e = rw (keep-map_values s.players, e) (rotate_one w dealer)

-- The street after the reset: `w` alone is in the action order.
reset_alone :
    (s : GameState) (h : HandState) (w : String) (p : PlayerState)
    → OnlyOneBehind s w p
    → reset_street_state h s ≡ record s {
      players = map_values clear_bet s.players;
      current_hand = some (reset_hand (config_big_blind s.config) (w ∷ []) h);
    }
unfolding reset_street_state
reset_alone s h w p e =
    ap
      (λ (order : List String). record s {
        players = map_values clear_bet s.players;
        current_hand = some (reset_hand (config_big_blind s.config) order h);
      })
      (order_alone s h w p h.dealer_player_id e)

-- A street with `w` alone in the action order.
abbrev lone_street : HandState → GameState → String → List (String × PlayerState) → GameState
lone_street h s w ps = record s {
  players = ps;
  current_hand = some (reset_hand (config_big_blind s.config) (w ∷ []) h);
}

-- With `w` alone in the action order and not folded, the hand ends at once in favour of `w`.
alone_ends :
    (dlr : Dealer) (h : HandState) (s : GameState) (w : String) (ps : List (String × PlayerState))
    (now : Option ℕ) (d : dlr.State)
    → is_live (get w ps) ≡ true
    → w ≢ ""
    → advance_hand dlr
        (reset_hand (config_big_blind s.config) (w ∷ []) h)
        (lone_street h s w ps)
        now
        d
      ≡ (
        ok (
            uncontested_events w
              (reset_hand (config_big_blind s.config) (w ∷ []) h)
              (lone_street h s w ps)),
        d,
      )
unfolding advance_hand end_hand_uncontested non_folded_count
alone_ends dlr h s w ps now d live name = rw live (ground (arith, eq_iff w ""))

-- What `advanceHand` makes of the state: the hand ends for `w` alone.
abbrev pub EndsFor : Dealer → Option ℕ → String → GameState → Type 0
EndsFor dlr now w s =
    (h : HandState) × (s.current_hand ≡ some h)
    × ((d : dlr.State) → advance_hand dlr h s now d ≡ (ok (uncontested_events w h s), d))

module _ (dlr : Dealer) (now : Option ℕ) (s : GameState) (w : String) (p : PlayerState)
    (only : OnlyOneBehind s w p) (ep : get w s.players ≡ some p) (live : p.is_folded ≡ false)
    (name : w ≢ "") where
  street_ends : (h : HandState) → EndsFor dlr now w (reset_street_state h s)
  street_ends h = rw (reset_alone s h w p only) (
    reset_hand (config_big_blind s.config) (w ∷ []) h,
    refl,
    λ d.
        alone_ends dlr h s w (map_values clear_bet s.players) now d
          (rw (get-map_values w clear_bet p s.players ep) (rw live)) name,
  )

  -- When only `w` has chips behind and has not folded, the deal of the flop makes `advanceHand` end
  -- the hand for `w` at once, whatever the cards and however many other players are all-in with a
  -- claim to the pot, for any time and any dealer. (`w` must sit in and have a non-empty id.)
  pub flop_forfeits_all_in :
      (a b c : ℕ) (h : HandState)
      → s.current_hand ≡ some h
      → EndsFor dlr now w (apply_flop_dealt a b c s)
  unfolding apply_flop_dealt
  flop_forfeits_all_in a b c h eh =
      in_hand_cases (EndsFor dlr now w) s _ (λ n. absurd_hand n) (λ g eg. street_ends _)
    where
      absurd_hand : s.current_hand ≡ none → EndsFor dlr now w s
      absurd_hand n = cc
