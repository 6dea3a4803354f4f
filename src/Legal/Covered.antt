-- ===== src/Legal/Covered.antt =====
-- No accepted action takes more from a stack than it holds: the validators of
-- internal/engine/validate_actions.go against `buildCommandEvents` and `Apply`.
use pace_poker.Prelude.{
  ◌-◌, ◌<◌, ◌≤◌, Int64, String, Option, none, some, ◌≡◌, ap, sym, ◌∙◌, arith, sub64, add64, m64,
  h64,
}
use mathlib.Core.Path.{subst₂}
use pace_poker.Proto.{
  PlayerState, HandState, GameState, Event, Payload, PlayerCommand, fold, check, call, bet, raise,
  all_in,
}
use pace_poker.Players.{get}
use pace_poker.Rejection.{passed}
use pace_poker.Validate.{validate}
use pace_poker.Validate.Require.{call_amount}
use pace_poker.Validate.Actions.{
  bet_checks, raise_checks, validate_fold, validate_check, validate_call, validate_bet,
  validate_raise, validate_all_in,
}
use pace_poker.Apply.{apply, apply_all, apply_event}
use pace_poker.Commands.{command_events}
use pace_poker.Commands.Build.{
  one, build_command_events, build_payload, build_call, build_raise, build_all_in,
}
use pace_poker.Legal.Action.{MayAct, IsAction, checked_seat}
use pace_poker.Legal.Solvent.{
  Pays, called-Pays, bet-Pays, raised-Pays, all_in-Pays, checked-Pays, folded-Pays,
}
use pace_poker.Legal.Amounts.{
  IsCovered, IsInt64, bet_conditions, raise_conditions, call_amount-le, bet_facts, raise_facts,
}

-- The state after the events of a command that has passed.
abbrev After : GameState → PlayerCommand → String → Payload → GameState
After s cmd actor payload = apply_all s (build_payload s cmd actor payload)

module _ (s : GameState) (cmd : PlayerCommand) (actor : String) (h : HandState) (p : PlayerState)
    (eh : s.current_hand ≡ some h) (ep : get actor s.players ≡ some p) where
  build_call_eq : build_call s actor ≡ one (Event.player_called actor (call_amount h p))
  unfolding build_call
  build_call_eq = rw (build_call, eh) (rw ep)

  build_raise_eq :
      (to : Int64)
      → build_raise s actor to ≡ one (Event.player_raised actor to (sub64 to h.current_highest_bet))
  unfolding build_raise
  build_raise_eq to = rw eh

  build_all_in_eq :
      build_all_in s actor ≡ one (Event.player_all_in actor (add64 p.current_bet p.stack))
  unfolding build_all_in
  build_all_in_eq = rw (ep, build_all_in)

  module _ (c : IsCovered h p) where
    call-After : (x : Int64) → Pays actor p (After s cmd actor (call x))
    unfolding apply_all apply apply_event
    call-After x =
        rw build_call_eq
          (called-Pays actor p _ ep (call_amount h p) (call_amount-le h p c) c.stack_small)

    all_in-After : Pays actor p (After s cmd actor all_in)
    unfolding apply_all apply apply_event
    all_in-After = rw build_all_in_eq (all_in-Pays actor p _ ep _)

    bet-After :
        (x : Int64)
        → (p.current_bet ≤ x) × (x - p.current_bet ≤ p.stack)
        → x < m64
        → Pays actor p (After s cmd actor (bet x))
    unfolding apply_all apply apply_event
    bet-After x f lx = bet-Pays actor p _ ep x f.0 f.1 lx c.stack_small

    raise-After :
        (to : Int64)
        → (p.current_bet ≤ to) × (to - p.current_bet ≤ p.stack)
        → to < m64
        → Pays actor p (After s cmd actor (raise to))
    unfolding apply_all apply apply_event
    raise-After to f lx =
        rw (build_raise_eq to) (raised-Pays actor p _ ep to _ f.0 f.1 lx c.stack_small)

    fold-After : Pays actor p (After s cmd actor fold)
    unfolding apply_all apply apply_event
    fold-After = folded-Pays actor p _ ep

    check-After : Pays actor p (After s cmd actor check)
    unfolding apply_all apply apply_event
    check-After = checked-Pays actor p _ ep

    bet_accepted :
        (x : Int64) {u : Unit {0}}
        → x < m64
        → bet_checks s x h p ≡ passed u
        → (p.current_bet ≤ x) × (x - p.current_bet ≤ p.stack)
    bet_accepted x lx e = let k = bet_conditions s x h p e in bet_facts h p x c lx k.0 k.1 k.2

    raise_accepted :
        (to : Int64) {u : Unit {0}}
        → to < m64
        → raise_checks s to actor h p ≡ passed u
        → (p.current_bet ≤ to) × (to - p.current_bet ≤ p.stack)
    raise_accepted to lx e =
        let k = raise_conditions s to actor h p e in raise_facts h p to c lx k.0 k.1

some_eq : {A : Type 0} (a b : A) → some a ≡ some b → a ≡ b
some_eq {A} a b e = ap from e
  where
    from : Option A → A
    from none = a
    from (some x) = x

-- What is known of a command that has passed: its actor's hand and seat, and the last checks.
Accepted : GameState → PlayerCommand → String → Payload → Type 0
Accepted s cmd actor payload =
    (h : HandState) × (p : PlayerState) × MayAct s actor h p
    × (IsCovered h p → Pays actor p (After s cmd actor payload))

validate-Accepted :
    (s : GameState) (cmd : PlayerCommand) (actor : String) (payload : Payload) {u : Unit {0}}
    → IsAction payload
    → IsInt64 payload
    → validate s payload actor ≡ passed u
    → Accepted s cmd actor payload
unfolding Accepted validate validate_fold validate_check validate_call validate_bet validate_raise
    validate_all_in
validate-Accepted s cmd actor fold a i e =
    let (h, p, m, r) = checked_seat s actor _ e in
    (h, p, m, fold-After s cmd actor h p m.in_hand m.seated)
validate-Accepted s cmd actor check a i e =
    let (h, p, m, r) = checked_seat s actor _ e in
    (h, p, m, check-After s cmd actor h p m.in_hand m.seated)
validate-Accepted s cmd actor (call x) a i e =
    let (h, p, m, r) = checked_seat s actor _ e in
    (h, p, m, λ c. call-After s cmd actor h p m.in_hand m.seated c x)
validate-Accepted s cmd actor (bet x) a i e =
    let (h, p, m, r) = checked_seat s actor _ e in
    (
      h,
      p,
      m,
      λ c.
          bet-After s cmd actor h p m.in_hand m.seated c x
            (bet_accepted s cmd actor h p m.in_hand m.seated c x i r) i,
    )
validate-Accepted s cmd actor (raise to) a i e =
    let (h, p, m, r) = checked_seat s actor _ e in
    (
      h,
      p,
      m,
      λ c.
          raise-After s cmd actor h p m.in_hand m.seated c to
            (raise_accepted s cmd actor h p m.in_hand m.seated c to i r) i,
    )
validate-Accepted s cmd actor all_in a i e =
    let (h, p, m, r) = checked_seat s actor _ e in
    (h, p, m, all_in-After s cmd actor h p m.in_hand m.seated)
validate-Accepted s cmd actor _ a i e = absurd a

passed_events :
    (s : GameState) (cmd : PlayerCommand) (actor : String) {u : Unit {0}}
    → validate s cmd.payload actor ≡ passed u
    → command_events s cmd actor ≡ build_payload s cmd actor cmd.payload
unfolding command_events build_command_events
passed_events s cmd actor e = rw e

-- An accepted fold, check, call, bet, raise or all-in leaves its actor with a stack that is not
-- negative and no larger than before: nothing is taken that the stack does not hold. The amounts of
-- the command are int64s, and before the command the stack and the highest bet are not negative and
-- the actor has bet no more than the highest bet.
pub accepted_action_covered :
    (s : GameState) (cmd : PlayerCommand) (actor : String) (h : HandState) (p : PlayerState)
    {u : Unit {0}}
    → IsAction cmd.payload
    → IsInt64 cmd.payload
    → validate s cmd.payload actor ≡ passed u
    → s.current_hand ≡ some h
    → get actor s.players ≡ some p
    → IsCovered h p
    → (q : PlayerState) × (get actor (apply_all s (command_events s cmd actor)).players ≡ some q)
      × (q.stack ≤ p.stack)
      × (q.stack < h64)
unfolding Accepted
accepted_action_covered s cmd actor h p a i e eh ep c =
    let (h', p', m, k) = validate-Accepted s cmd actor cmd.payload a i e in
    let hs : h ≡ h' = some_eq h h' (sym eh ∙ m.in_hand) in
    let ps : p ≡ p' = some_eq p p' (sym ep ∙ m.seated) in
    let (q, eq, le) = k (subst₂ IsCovered hs ps c) in
    let le' : q.stack ≤ p.stack = rw ps le in
    (q, rw (passed_events s cmd actor e) eq, le', omega (arith, c.stack_small))
