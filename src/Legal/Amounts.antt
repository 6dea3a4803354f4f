-- ===== src/Legal/Amounts.antt =====
-- What the checks on the amounts of a bet, a raise or a call establish
-- (internal/engine/validate_actions.go and `callAmount` of validate.go).
use pace_poker.Prelude.{
  ◌-◌, ◌<◌, ◌≤◌, Int64, String, false, ◌≡◌, arith, lt64, le64, sub64, m64, h64,
}
use pace_poker.Proto.{PlayerState, HandState, GameState, Payload, bet, raise}
use pace_poker.Rejection.{passed}
use pace_poker.Validate.Require.{call_amount}
use pace_poker.Validate.Actions.{bet_checks, raise_checks}

-- The amounts of a player in a hand before an action: none is negative, and the player has bet no
-- more than the highest bet.
pub record IsCovered (h : HandState) (p : PlayerState) : Type 0 where
  pub stack_small : p.stack < h64
  pub bet_below : p.current_bet ≤ h.current_highest_bet
  pub highest_small : h.current_highest_bet < h64

-- The amount that a command names is an int64.
abbrev pub IsInt64 : Payload → Type 0
IsInt64 (bet x) = x < m64
IsInt64 (raise to) = to < m64
IsInt64 _ = Unit

pub bet_conditions :
    (s : GameState) (x : Int64) (h : HandState) (p : PlayerState) {u : Unit {0}}
    → bet_checks s x h p ≡ passed u
    → (lt64 0 h.current_highest_bet ≡ false) × (le64 x 0 ≡ false) × (lt64 p.stack x ≡ false)
unfolding bet_checks
bet_conditions s x h p e = ground arith

pub raise_conditions :
    (s : GameState) (to : Int64) (actor : String) (h : HandState) (p : PlayerState) {u : Unit {0}}
    → raise_checks s to actor h p ≡ passed u
    → (le64 to h.current_highest_bet ≡ false) × (lt64 p.stack (sub64 to p.current_bet) ≡ false)
unfolding raise_checks
raise_conditions s to actor h p e = ground arith

-- The call is capped by the stack.
pub call_amount-le : (h : HandState) (p : PlayerState) → IsCovered h p → call_amount h p ≤ p.stack
unfolding call_amount
call_amount-le h p c = ground arith

-- An accepted bet, in numbers.
pub bet_facts :
    (h : HandState) (p : PlayerState) (x : Int64)
    → IsCovered h p
    → x < m64
    → lt64 0 h.current_highest_bet ≡ false
    → le64 x 0 ≡ false
    → lt64 p.stack x ≡ false
    → (p.current_bet ≤ x) × (x - p.current_bet ≤ p.stack)
bet_facts h p x c lx e1 e2 e3 = ground arith

-- An accepted raise, in numbers.
pub raise_facts :
    (h : HandState) (p : PlayerState) (to : Int64)
    → IsCovered h p
    → to < m64
    → le64 to h.current_highest_bet ≡ false
    → lt64 p.stack (sub64 to p.current_bet) ≡ false
    → (p.current_bet ≤ to) × (to - p.current_bet ≤ p.stack)
raise_facts h p to c lx e1 e2 = ground arith
