-- ===== src/Session/Repeat.antt =====
-- A command that the session gets a second time (`process` and `run` of
-- internal/engine/session.go).
use mathlib.Core.Path.{subst}
use pace_poker.Prelude.{
  ◌+◌, ◌<◌, Int64, String, some, none, List, [], ◌∷◌, ◌++◌, length, keep, ◌≡◌, ◌≢◌, refl, sym, ap,
  ◌∙◌, arith, h64, add64, eq_iff,
}
use pace_poker.Proto.{GameState, GameEvent, PlayerCommand}
use pace_poker.Apply.{apply, apply_all}
use pace_poker.Chips.Account.{chips, flow}
use pace_poker.Chips.Reducer.{apply-flow}
use pace_poker.Cards.Dealer.{Dealer}
use pace_poker.Storage.Env.{Env, Uuid, Codec}
use pace_poker.Storage.Db.{EventRow}
use pace_poker.Storage.Io.{done, W, next}
use pace_poker.Lobby.Replay.{Holds}
use pace_poker.Storage.EventQueries.{of_game, caused_by, latest_sequence}
use pace_poker.Session.Stamping.{lookup_by_command_id}
use pace_poker.Session.Stored.{Stores, keep-++}
use pace_poker.Session.Synced.{IsSound, lookup-Reads, process-IsSound}
use pace_poker.Session.Found.{IsUnseen, lookup-unseen, lookup-stored}
use pace_poker.Session.Process.{answer_command, process}
use pace_poker.Session.Loop.{envelope, respond, turn}

module _ (env : Env) (dlr : Dealer) (hand_ids : Int64 → String) (game : Uuid)
    (codec : Codec env game) where
  -- A command that the look-up finds: the answer, the state in memory and the world.
  turn-found :
      (s : GameState) (actor : String) (cmd : PlayerCommand) (d : dlr.State) (w w1 : W env)
      (e : GameEvent)
      → cmd.command_id ≢ ""
      → lookup_by_command_id env game cmd.command_id w ≡ (done (e ∷ []), w1)
      → (process env dlr hand_ids game s actor cmd d w ≡ ((done (e ∷ []), w1), d))
        × (turn env dlr hand_ids game (envelope actor cmd) s d w ≡ (apply s e, d, w1))
  unfolding turn respond process answer_command apply_all
  turn-found s actor cmd d w w1 e named found =
      let given = eq_iff cmd.command_id "" in
      (ground (arith, given, named, found), ground (arith, given, named, found))

  turn-processed :
      (s : GameState) (actor : String) (cmd : PlayerCommand) (d d2 : dlr.State) (w w2 : W env)
      (es : List GameEvent)
      → process env dlr hand_ids game s actor cmd d w ≡ ((done es, w2), d2)
      → turn env dlr hand_ids game (envelope actor cmd) s d w ≡ (apply_all s es, d2, w2)
  unfolding turn respond
  turn-processed s actor cmd d d2 w w2 es h = rw h refl

  -- The rows of a command's first turn.
  process-Stores :
      (s : GameState) (actor : String) (cmd : PlayerCommand) (id : Uuid) (d d2 : dlr.State)
      (w w2 : W env) (es : List GameEvent)
      → cmd.command_id ≢ ""
      → env.parse_uuid cmd.command_id ≡ some id
      → IsUnseen env game id codec w
      → process env dlr hand_ids game s actor cmd d w ≡ ((done es, w2), d2)
      → Stores env game codec (lookup_by_command_id env game cmd.command_id w).1 es w2
  process-Stores s actor cmd id d d2 w w2 es named parsed unseen h =
      subst
        (λ r.
          IsSound env dlr hand_ids game codec (lookup_by_command_id env game cmd.command_id w).1
            r.0)
        h
        (process-IsSound env dlr hand_ids game codec s actor cmd d w
          (ground (arith, named, eq_iff cmd.command_id ""))
          (lookup-unseen env game id codec cmd.command_id w parsed unseen))

  -- A client's retry. A command that is new to the table's log is processed, its events are applied,
  -- and the log grows by one row for each of them; then the same command arrives once more. The second
  -- answer is the first of the events that the first answer brought, and no row is written; but the
  -- session applies that event to its state a second time, so that the chips in memory move again by
  -- what the event brings. (The command's id is a UUID and the first event carries it; the database
  -- answers the second look-up; the numbers of the events stay below 2 ^ 63; what is written can be
  -- read back.)
  pub turn-repeats :
      (s : GameState) (actor : String) (cmd : PlayerCommand) (id : Uuid) (d d2 : dlr.State)
      (w w2 : W env) (e : GameEvent) (es : List GameEvent)
      → cmd.command_id ≢ ""
      → env.parse_uuid cmd.command_id ≡ some id
      → IsUnseen env game id codec w
      → latest_sequence game w.view + length (e ∷ es) < h64
      → process env dlr hand_ids game s actor cmd d w ≡ ((done (e ∷ es), w2), d2)
      → e.caused_by_command_id ≡ cmd.command_id
      → env.fault w2.tick ≡ none
      → (turn env dlr hand_ids game (envelope actor cmd) s d w ≡ (apply_all s (e ∷ es), d2, w2))
        × ((rows : List (EventRow env.Bytes)) × Holds env rows (e ∷ es)
            × (keep (of_game game) w2.view.events ≡ keep (of_game game) w.view.events ++ rows))
        × (process env dlr hand_ids game (apply_all s (e ∷ es)) actor cmd d2 w2
            ≡ ((done (e ∷ []), next env w2), d2))
        × (turn env dlr hand_ids game (envelope actor cmd) (apply_all s (e ∷ es)) d2 w2
            ≡ (apply (apply_all s (e ∷ es)) e, d2, next env w2))
        × (chips (apply (apply_all s (e ∷ es)) e)
            ≡ add64 (chips (apply_all s (e ∷ es))) (flow (apply_all s (e ∷ es)) e.event))
  turn-repeats s actor cmd id d d2 w w2 e es named parsed unseen lt h caused calm =
      let looked = (lookup_by_command_id env game cmd.command_id w).1 in
      let same : looked.view ≡ w.view =
        (lookup-Reads env dlr hand_ids game codec cmd.command_id w).0 in
      let stored = process-Stores s actor cmd id d d2 w w2 (e ∷ es) named parsed unseen h in
      let found : lookup_by_command_id env game cmd.command_id w2 ≡ (done (e ∷ []), next env w2) =
        subst (λ t. lookup_by_command_id env game t w2 ≡ (done (e ∷ []), next env w2)) caused
          (lookup-stored env game id codec e es looked w2 (λ x. named (sym caused ∙ x))
            (ap env.parse_uuid caused ∙ parsed)
            (ap (λ v. keep (caused_by id) (keep (of_game game) v.events)) same ∙ unseen)
            (subst (λ v. latest_sequence game v + length (e ∷ es) < h64) (sym same) lt) calm
            stored) in
      let (rows, holds, mine, _, grown, _, _) = stored in
      let (answer, second) =
        turn-found (apply_all s (e ∷ es)) actor cmd d2 w2 (next env w2) e named found in
      (
        turn-processed s actor cmd d d2 w w2 (e ∷ es) h,
        (
          rows,
          holds,
          ap (λ v. keep (of_game game) v.events) grown
              ∙ keep-++ env game looked.view.events rows
              ∙ ap (λ v. keep (of_game game) v.events ++ keep (of_game game) rows) same
              ∙ ap (λ l. keep (of_game game) w.view.events ++ l) mine,
        ),
        answer,
        second,
        apply-flow (apply_all s (e ∷ es)) e,
      )
