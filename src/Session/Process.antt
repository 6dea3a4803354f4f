-- ===== src/Session/Process.antt =====
-- `process`, `handleResume` and `runProactiveAdvance` of internal/engine/session.go. The dealer's
-- state goes through next to the world; where the store fails, what the dealer has dealt stays dealt.
use pace_poker.Prelude.{
  String, Bool, true, false, some, List, [], ◌∷◌, ◌<>◌, str_eq, if◌then◌else◌, Int64,
}
use pace_poker.Proto.{
  GameState, GameStatus, GameEvent, bare, table_resumed, PlayerCommand, Payload, resume,
  status_unspecified, waiting, active, paused, finished, closed,
}
use pace_poker.Apply.{apply}
use pace_poker.Cards.Dealer.{Dealer, Result, ok, err}
use pace_poker.Advance.{run_advance, handle_command}
use pace_poker.Rejection.{RejectionReason, illegal_action, to_command_rejected_event}
use pace_poker.Storage.Errors.{Err, wrap, message}
use pace_poker.Storage.Env.{Env, Uuid}
use pace_poker.Storage.Io.{Outcome, done, failed, Io, pure, W, next}
use pace_poker.Session.Stamping.{persist, tag_events, lookup_by_command_id}

-- `GameStatus.String()`.
abbrev pub status_text : GameStatus → String
status_text status_unspecified = "GAME_STATUS_UNSPECIFIED"
status_text waiting = "GAME_STATUS_WAITING"
status_text active = "GAME_STATUS_ACTIVE"
status_text paused = "GAME_STATUS_PAUSED"
status_text finished = "GAME_STATUS_FINISHED"
status_text closed = "GAME_STATUS_CLOSED"

abbrev pub is_paused : GameStatus → Bool
is_paused paused = true
is_paused _ = false

abbrev pub is_resume : Payload → Bool
is_resume (resume n) = true
is_resume _ = false

abbrev pub not_paused : GameStatus → RejectionReason
not_paused st = record {
  code = illegal_action;
  reason = "cannot resume: game is not paused (status=" <> status_text st <> ")";
}

module _ (env : Env) (dlr : Dealer) (hand_ids : Int64 → String) (game : Uuid) where
  abbrev pub Answer : Type 0
  Answer = (Outcome (List GameEvent) × W env) × dlr.State

  -- What the engine has computed is handed on, or its error.
  abbrev pub after_engine :
      Result (List GameEvent) × dlr.State
      → (String → Err)
      → (List GameEvent → Io env.Bytes (List GameEvent))
      → W env
      → Answer
  after_engine (ok es, d) report k w = (k es w, d)
  after_engine (err x, d) report k w = ((failed (report x), w), d)

  -- `runProactiveAdvance`.
  abbrev pub store_advance : List GameEvent → Io env.Bytes (List GameEvent)
  store_advance [] = pure []
  store_advance (e ∷ es) =
      persist env "stamp proactive advance" "persist proactive advance" game (e ∷ es)

  unfoldable pub run_proactive_advance : GameState → dlr.State → W env → Answer
  run_proactive_advance s d w =
      after_engine (run_advance dlr hand_ids s (some (env.clock w.tick)) d) message store_advance
        (next env w)

  abbrev pub resume_failed : String → Err
  resume_failed x = wrap "advance after resume" (message x)

  abbrev pub store_resume : PlayerCommand → List GameEvent → Io env.Bytes (List GameEvent)
  store_resume cmd es =
      persist env "stamp resume events" "persist resume events" game
        (tag_events cmd.command_id (bare table_resumed ∷ es))

  -- `handleResume`.
  unfoldable pub handle_resume : GameState → PlayerCommand → dlr.State → W env → Answer
  handle_resume s cmd d w =
      if is_paused s.status
      then after_engine
          (run_advance dlr hand_ids (apply s (bare table_resumed)) (some (env.clock w.tick)) d)
          resume_failed (store_resume cmd) (next env w)
      else (
        persist env "stamp resume rejection" "persist resume rejection" game
            (tag_events cmd.command_id
              (to_command_rejected_event (not_paused s.status) s.game_id cmd.command_id ∷ []))
            w,
        d,
      )

  abbrev pub command_failed : String → Err
  command_failed x = wrap "handle command" (message x)

  -- Every event is tagged with the command before it is stored.
  abbrev pub store_command : PlayerCommand → List GameEvent → Io env.Bytes (List GameEvent)
  store_command cmd es =
      persist env "stamp events" "persist events" game (tag_events cmd.command_id es)

  -- Steps 2 to 4 of `process`.
  unfoldable pub process_new : GameState → String → PlayerCommand → dlr.State → W env → Answer
  process_new s actor cmd d w =
      if is_resume cmd.payload
      then handle_resume s cmd d w
      else after_engine (handle_command dlr hand_ids s cmd actor (some (env.clock w.tick)) d)
          command_failed (store_command cmd) (next env w)

  -- `err == nil && existing != nil` answers with the event that is there; an error of the look-up
  -- counts as no event.
  unfoldable pub answer_command :
      GameState → String → PlayerCommand → dlr.State → Outcome (List GameEvent) × W env → Answer
  answer_command s actor cmd d (done (e ∷ es), w) = ((done (e ∷ es), w), d)
  answer_command s actor cmd d (done [], w) = process_new s actor cmd d w
  answer_command s actor cmd d (failed x, w) = process_new s actor cmd d w

  -- `process`.
  unfoldable pub process : GameState → String → PlayerCommand → dlr.State → W env → Answer
  process s actor cmd d w =
      if str_eq cmd.command_id ""
      then process_new s actor cmd d w
      else answer_command s actor cmd d (lookup_by_command_id env game cmd.command_id w)
