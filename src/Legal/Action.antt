-- ===== src/Legal/Action.antt =====
-- What has passed the checks of an action (internal/engine/validate.go and validate_actions.go).
use pace_poker.Prelude.{String, false, Option, none, some, ◌≡◌, ◌≢◌, refl, ◌⊎◌, arith, eq_iff}
use mathlib.Core.Path.{subst}
use pace_poker.Proto.{
  GameStatus, HandPhase, PlayerState, HandState, GameState, Payload, fold, check, call, bet, raise,
  all_in,
}
use pace_poker.Players.{get}
use pace_poker.Rejection.{Checked, passed, rejected, ◌>>=◌}
use pace_poker.Validate.Require.{
  require_active_game, require_hand_in_progress, require_seated, require_can_act,
  require_actors_turn, hand_of, playable_phase, seat_of, turn_of, active_status,
}
use pace_poker.Validate.Actions.{
  require_action, validate_fold, validate_check, validate_call, validate_bet, validate_raise,
  validate_all_in,
}
use pace_poker.Validate.{validate}

-- A chain of checks that passes has passed its first check.
pub >>=-eq-passed :
    {A B : Type 0} (m : Checked A) (f : A → Checked B) {b : B}
    → (m >>= f) ≡ passed b
    → (a : A) × (m ≡ passed a) × (f a ≡ passed b)
>>=-eq-passed (passed a) f e = (a, refl, e)
>>=-eq-passed (rejected r) f e = cc

-- The facts that the five checks establish.
pub record MayAct (s : GameState) (actor : String) (h : HandState) (p : PlayerState) : Type 0 where
  pub open_for_play : (s.status ≡ GameStatus.active) ⊎ (s.status ≡ GameStatus.paused)
  pub in_hand : s.current_hand ≡ some h
  pub playable : (h.phase ≢ HandPhase.hand_over) × (h.phase ≢ HandPhase.phase_unspecified)
  pub seated : get actor s.players ≡ some p
  pub sits_in : p.is_sitting_out ≡ false
  pub not_folded : p.is_folded ≡ false
  pub not_all_in : p.is_all_in ≡ false
  pub on_turn : h.acting_player_id ≡ some actor

status_open :
    (st : GameStatus) {u : Unit {0}}
    → active_status st ≡ passed u
    → (st ≡ GameStatus.active) ⊎ (st ≡ GameStatus.paused)
status_open st e = ground arith

hand_playable :
    (o : Option HandState) {h : HandState}
    → (hand_of o >>= λ g. playable_phase g.phase g) ≡ passed h
    → (o ≡ some h) × (h.phase ≢ HandPhase.hand_over) × (h.phase ≢ HandPhase.phase_unspecified)
hand_playable o e = ground arith

seat_found :
    (o : Option PlayerState) (actor : String) {p : PlayerState}
    → seat_of o actor ≡ passed p
    → o ≡ some p
seat_found o actor e = ground arith

turn_found :
    (o : Option String) (actor : String) {u : Unit {0}}
    → turn_of o actor ≡ passed u
    → o ≡ some actor
turn_found none actor e = cc
turn_found (some pid) actor e = ground (arith, eq_iff pid actor)

can_act_flags :
    (p : PlayerState) {u : Unit {0}}
    → require_can_act p ≡ passed u
    → (p.is_sitting_out ≡ false) × (p.is_folded ≡ false) × (p.is_all_in ≡ false)
unfolding require_can_act
can_act_flags p e = ground arith

require_action-MayAct_facts :
    (s : GameState) (actor : String) (h : HandState) (p : PlayerState) {u v w : Unit {0}}
    → require_active_game s ≡ passed u
    → require_hand_in_progress s ≡ passed h
    → require_seated s actor ≡ passed p
    → require_can_act p ≡ passed v
    → require_actors_turn h actor ≡ passed w
    → MayAct s actor h p
unfolding require_active_game require_hand_in_progress require_seated require_actors_turn
require_action-MayAct_facts s actor h p e1 e2 e3 e4 e5 =
    let hand = hand_playable s.current_hand e2 in
    let flags = can_act_flags p e4 in
    record {
      open_for_play = status_open s.status e1;
      in_hand = hand.0;
      playable = (hand.1, hand.2);
      seated = seat_found (get actor s.players) actor e3;
      sits_in = flags.0;
      not_folded = flags.1;
      not_all_in = flags.2;
      on_turn = turn_found h.acting_player_id actor e5;
    }

MayAct-pair :
    (s : GameState) (actor : String) (g h : HandState) (q p : PlayerState)
    → ◌≡◌ {A = Checked (HandState × PlayerState)} (passed (g, q)) (passed (h, p))
    → MayAct s actor g q
    → MayAct s actor h p
MayAct-pair s actor g h q p e m = subst (At s actor) e m
  where
    At : GameState → String → Checked (HandState × PlayerState) → Type 0
    At s actor (passed (a, b)) = MayAct s actor a b
    At s actor (rejected r) = ⊥

-- Whoever passes the checks of an action is seated at a table open for play, in a playable hand, has
-- not folded, is not all-in or sat out, and is the player whose turn it is.
pub require_action-MayAct :
    (s : GameState) (actor : String) (h : HandState) (p : PlayerState)
    → require_action s actor ≡ passed (h, p)
    → MayAct s actor h p
unfolding require_action
require_action-MayAct s actor h p e =
    let (u, e1, r1) = >>=-eq-passed (require_active_game s) _ e in
    let (g, e2, r2) = >>=-eq-passed (require_hand_in_progress s) _ r1 in
    let (q, e3, r3) = >>=-eq-passed (require_seated s actor) _ r2 in
    let (v, e4, r4) = >>=-eq-passed (require_can_act q) _ r3 in
    let (w, e5, r5) = >>=-eq-passed (require_actors_turn g actor) _ r4 in
    MayAct-pair s actor g h q p r5 (require_action-MayAct_facts s actor g q e1 e2 e3 e4 e5)

-- The six commands that act in a betting round.
abbrev pub IsAction : Payload → Type 0
IsAction fold = Unit
IsAction check = Unit
IsAction (call x) = Unit
IsAction (bet x) = Unit
IsAction (raise to) = Unit
IsAction all_in = Unit
IsAction _ = ⊥

-- The hand and the seat of a command that went on from the checks of an action.
pub checked_seat :
    (s : GameState) (actor : String) (f : HandState × PlayerState → Checked (Unit {0}))
    {u : Unit {0}}
    → (require_action s actor >>= f) ≡ passed u
    → (h : HandState) × (p : PlayerState) × MayAct s actor h p × (f (h, p) ≡ passed u)
checked_seat s actor f e =
    let (x, e1, r1) = >>=-eq-passed (require_action s actor) f e in
    (x.0, x.1, require_action-MayAct s actor x.0 x.1 e1, r1)

-- An accepted fold, check, call, bet, raise or all-in comes from the player whose turn it is, at a
-- table open for play, in a playable hand, who has not folded and is neither all-in nor sat out.
pub validate-MayAct :
    (s : GameState) (payload : Payload) (actor : String) {u : Unit {0}}
    → IsAction payload
    → validate s payload actor ≡ passed u
    → (h : HandState) × (p : PlayerState) × MayAct s actor h p
unfolding validate validate_fold validate_check validate_call validate_bet validate_raise
    validate_all_in
validate-MayAct s fold actor a e = let (h, p, m, r) = checked_seat s actor _ e in (h, p, m)
validate-MayAct s check actor a e = let (h, p, m, r) = checked_seat s actor _ e in (h, p, m)
validate-MayAct s (call x) actor a e = let (h, p, m, r) = checked_seat s actor _ e in (h, p, m)
validate-MayAct s (bet x) actor a e = let (h, p, m, r) = checked_seat s actor _ e in (h, p, m)
validate-MayAct s (raise to) actor a e = let (h, p, m, r) = checked_seat s actor _ e in (h, p, m)
validate-MayAct s all_in actor a e = let (h, p, m, r) = checked_seat s actor _ e in (h, p, m)
validate-MayAct s _ actor a e = absurd a
