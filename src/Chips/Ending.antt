-- ===== src/Chips/Ending.antt =====
-- A hand that ends without a showdown: the pot less the rake reaches the winner's stack
-- (`endHandUncontested` of internal/engine/advance.go).
use pace_poker.Prelude.{
  ℕ, ◌%◌, ◌<◌, Int64, String, Bool, true, List, [], ◌∷◌, Option, none, some, ◌≡◌, refl, sym, ap,
  arith, ◌∙◌, add64, sub64, div64, mod64, m64, Bool-cases, inl, inr, lt64, keep, ◌≢◌, eq_iff,
}
use mathlib.Core.Path.{subst}
use pace_poker.Proto.{PlayerState, HandState, GameState, Event, bare}
use pace_poker.Players.{get}
use pace_poker.Chips.Account.{chips, flow, pot_of, from_pot, paid}
use pace_poker.Chips.Reducer.{apply_all-flow, flow_all}
use pace_poker.Players.{adjust}
use pace_poker.Apply.Seats.{add_stack}
use pace_poker.Apply.Street.{on_hand}
use pace_poker.Apply.Cases.{in_hand_cases, with_hand}
use pace_poker.Apply.{apply, apply_all, apply_event}
use pace_poker.Apply.Pots.{apply_rake_taken, apply_pot_awarded}
use pace_poker.Pot.{is_live, action_order_of}
use pace_poker.Pot.Rake.{compute_rake}
use pace_poker.Advance.Active.{non_folded_player_ids}
use pace_poker.Advance.Ending.{uncontested_events, end_hand_uncontested, hand_ended_event}

-- The pot of a hand that has been changed by `f`.
pot-on_hand :
    (f : HandState → HandState) (t : GameState) (h : HandState)
    → t.current_hand ≡ some h
    → pot_of (on_hand f t).current_hand ≡ (f h).pot
pot-on_hand f t h e =
    in_hand_cases (λ r. pot_of r.current_hand ≡ (f h).pot) t
      (λ g. record t { current_hand = some (f g) }) (λ n. cc)
      (λ g eg. ap (λ (o : Option HandState). pot_after o) (sym eg ∙ e))
  where
    pot_after : Option HandState → ℕ
    pot_after none = 0
    pot_after (some g) = (f g).pot

-- The award of the whole pot to one seated player and the end of the hand, from a pot that
-- exceeds the award by `extra`.
award_and_end :
    (h : HandState) (s t : GameState) (x extra : Int64) (w : String) (p : PlayerState)
    → get w t.players ≡ some p
    → t.current_hand ≡ some h
    → x < m64
    → extra < m64
    → sub64 h.pot x ≡ extra
    → flow_all t (bare (Event.pot_awarded x (w ∷ []) [] "") ∷ hand_ended_event s ∷ [])
      ≡ sub64 0 extra
unfolding flow_all flow apply apply_event apply_pot_awarded
award_and_end h s t x extra w p ep eh lx lt eo = ground (
  arith,
  pot-on_hand (λ h'. record h' { pot = sub64 h'.pot x })
      (record t {
        version = add64 t.version 1;
        players = adjust w (add_stack (add64 (div64 x 1) (mod64 x 1))) t.players;
      })
      h eh,
  ap (λ (o : Option PlayerState). paid o (add64 (div64 x 1) (mod64 x 1))) ep,
  ap (λ (o : Option HandState). from_pot o x) eh,
)

-- The flow of the events where the hand is written out.
uncontested-flow :
    (w : String) (h : HandState) (s : GameState) (p : PlayerState)
    → get w s.players ≡ some p
    → h.pot < m64
    → flow_all
        (record s { current_hand = some h })
        (uncontested_events w h (record s { current_hand = some h }))
      ≡ sub64 0 (compute_rake h.pot s.config)
unfolding flow_all flow apply apply_event apply_rake_taken
uncontested-flow w h s p ep lp =
    let r = compute_rake h.pot s.config in
    let s0 = record s { current_hand = some h } in
    let h1 = record h { rake_taken = add64 h.rake_taken r; pot = sub64 h.pot r } in
    elim (Bool-cases (lt64 0 r)) [
      | inl e ↦ rw e (
          omega (
            arith,
            award_and_end h1 s0 (apply s0 (bare (Event.rake_charged r))) (sub64 h.pot r) 0 w p ep
                refl (omega arith) (omega arith) (omega arith),
          ))
      | inr e ↦ rw e (
          omega (
            arith,
            award_and_end h s0 s0 (sub64 h.pot r) (r % m64) w p ep refl (omega arith) (omega arith)
                (omega arith),
          ))
    ]

-- The first element that a test keeps passes it.
keep-head :
    (p : String → Bool) (xs : List String) (w : String) (ws : List String)
    → keep p xs ≡ w ∷ ws
    → p w ≡ true
keep-head p [] w ws e = ground arith
keep-head p (x ∷ xs) w ws e = ground (arith, keep-head p xs w ws)

live_player : (o : Option PlayerState) → is_live o ≡ true → (p : PlayerState) × (o ≡ some p)
live_player none e = cc
live_player (some p) e = (p, refl)

seated_of_live :
    (s : GameState) (w : String) (ws : List String)
    → non_folded_player_ids s ≡ w ∷ ws
    → (p : PlayerState) × (get w s.players ≡ some p)
unfolding non_folded_player_ids
seated_of_live s w ws live =
    live_player (get w s.players)
      (keep-head (λ x. is_live (get x s.players)) (action_order_of s.current_hand) w ws live)

uncontested_eq :
    (h : HandState) (s : GameState) (w : String) (ws : List String)
    → non_folded_player_ids s ≡ w ∷ ws
    → w ≢ ""
    → end_hand_uncontested h s ≡ uncontested_events w h s
unfolding end_hand_uncontested
uncontested_eq h s w ws live name = rw (live, end_hand_uncontested) (ground (arith, eq_iff w ""))

-- When all but one have folded, the events that end the hand take exactly the rake off the table:
-- the rest of the pot goes to a stack, modulo 2 ^ 64. This holds for a hand in progress with an
-- int64 pot, where somebody of the action order with a non-empty id has not folded.
pub end_hand_uncontested-chips :
    (h : HandState) (s : GameState) (w : String) (ws : List String)
    → s.current_hand ≡ some h
    → h.pot < m64
    → non_folded_player_ids s ≡ w ∷ ws
    → w ≢ ""
    → chips (apply_all s (end_hand_uncontested h s)) ≡ sub64 (chips s) (compute_rake h.pot s.config)
end_hand_uncontested-chips h s w ws eh lp live name =
    let (p, ep) = seated_of_live s w ws live in
    rw (uncontested_eq h s w ws live name) (
      omega (
        arith,
        apply_all-flow s (uncontested_events w h s),
        subst (λ t. flow_all t (uncontested_events w h t) ≡ sub64 0 (compute_rake h.pot s.config))
            (with_hand s h eh) (uncontested-flow w h s p ep lp),
      ))
