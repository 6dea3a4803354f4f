-- ===== src/Advance.antt =====
-- internal/engine/advance.go, and the loop `runAdvance` and the entry point `HandleCommand` of
-- internal/engine/handler.go.
pub mod Monad
pub mod Active
pub mod Start
pub mod Ending
pub mod Hand
pub mod Idle
use pace_poker.Prelude.{ℕ, zero, suc, Int64, String, Option, none, some, List, [], ◌∷◌, ◌++◌, ◌<>◌}
use pace_poker.Proto.{HandState, GameState, GameEvent, PlayerCommand}
use pace_poker.Cards.Dealer.{Dealer, Result, ok, err}
use pace_poker.Apply.{apply_all}
use pace_poker.Commands.{command_events}
use Monad.{Action, ◌>>=◌, pure, wrapping}
use Hand.{advance_hand}
use Idle.{advance_idle}

abbrev pub max_steps : ℕ
max_steps = 64

module _ (dlr : Dealer) (hand_ids : Int64 → String) where
  -- The next batch of server-driven events, empty when the engine waits.
  unfoldable pub advance : GameState → Option ℕ → Action dlr.State (List GameEvent)
  advance s now = elim s.current_hand [
    | none ↦ advance_idle dlr hand_ids s
    | some h ↦ advance_hand dlr h s now
  ]

  -- The rounds left of `runAdvance`'s loop. A batch that is empty ends it.
  unfoldable pub advance_loop : ℕ → GameState → Option ℕ → Action dlr.State (List GameEvent)
  advance_loop zero s now = pure []
  advance_loop (suc rounds) s now = do
    batch ← advance s now
    elim batch [
      | [] ↦ pure []
      | e ∷ es ↦ advance_loop rounds (apply_all s (e ∷ es)) now >>= λ rest. pure ((e ∷ es) ++ rest)
    ]

  unfoldable pub run_advance : GameState → Option ℕ → Action dlr.State (List GameEvent)
  run_advance s now = advance_loop max_steps s now

  unfoldable pub handle_command :
      GameState → PlayerCommand → String → Option ℕ → Action dlr.State (List GameEvent)
  handle_command s cmd actor now = do
    let direct = command_events s cmd actor
    advanced ← wrapping "advance" (run_advance (apply_all s direct) now)
    pure (direct ++ advanced)
