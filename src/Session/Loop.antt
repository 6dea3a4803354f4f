-- ===== src/Session/Loop.antt =====
-- `run` of internal/engine/session.go, one turn of its loop at a time: a command that waits in the
-- inbox, or the deadline of the acting player. When the timer is armed is not part of the model.
use pace_poker.Prelude.{String, List, Int64}
use pace_poker.Proto.{GameState, GameEvent, PlayerCommand}
use pace_poker.Apply.{apply_all}
use pace_poker.Cards.Dealer.{Dealer}
use pace_poker.Storage.Env.{Env, Uuid}
use pace_poker.Storage.Io.{Outcome, done, failed, W}
use pace_poker.Session.Process.{Answer, process, run_proactive_advance}

pub data Wakeup : Type 0 where
  -- the actor and the command
  envelope : String → PlayerCommand → Wakeup
  deadline : Wakeup

-- `if err == nil { state = applyAll(state, events) }`.
abbrev pub remember : {A : Type 0} → GameState → Outcome (List GameEvent) × A → GameState
remember s (done es, w) = apply_all s es
remember s (failed e, w) = s

module _ (env : Env) (dlr : Dealer) (hand_ids : Int64 → String) (game : Uuid) where
  unfoldable pub respond : Wakeup → GameState → dlr.State → W env → Answer env dlr hand_ids game
  respond (envelope actor cmd) s d w = process env dlr hand_ids game s actor cmd d w
  respond deadline s d w = run_proactive_advance env dlr hand_ids game s d w

  -- The state in memory after a turn.
  unfoldable pub turn : Wakeup → GameState → dlr.State → W env → GameState × dlr.State × W env
  turn x s d w = let (r, d') = respond x s d w in (remember s r, d', r.1)
