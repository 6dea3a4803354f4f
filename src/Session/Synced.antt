-- ===== src/Session/Synced.antt =====
-- The state in memory is the replay of the log, over every turn of the session
-- (internal/engine/session.go).
use pace_poker.Prelude.{
  Int64, String, some, List, [], ◌∷◌, ◌++◌, ◌≡◌, ◌⊎◌, refl, sym, ap, ◌∙◌, inl, inr, arith, keep,
  false, str_eq, eq_iff, Bool-cases,
}
use mathlib.Core.List.{append-nil}
use pace_poker.Proto.{GameState, GameEvent, PlayerCommand, bare, table_resumed}
use pace_poker.Apply.{apply, apply_all}
use pace_poker.Rounds.Replay.{apply_all-++}
use pace_poker.Cards.Dealer.{Dealer, Result, ok, err}
use pace_poker.Advance.{run_advance, handle_command}
use pace_poker.Rejection.{to_command_rejected_event}
use pace_poker.Storage.Errors.{Err, message}
use pace_poker.Storage.Env.{Env, Uuid, Codec}
use pace_poker.Storage.Db.{Db, EventRow}
use pace_poker.Storage.Io.{Outcome, done, failed, Io, W, next, Run-cases}
use pace_poker.Storage.EventQueries.{of_game}
use pace_poker.Storage.Events.{find_by_command, params_of}
use pace_poker.Storage.Frame.{Reads}
use pace_poker.Lobby.Replay.{Holds}
use pace_poker.Session.Stamping.{persist, tag_events, lookup_by_command_id}
use pace_poker.Session.Process.{
  after_engine, command_failed, resume_failed, store_command, store_resume, not_paused,
  store_advance, run_proactive_advance, handle_resume, process_new, answer_command, process,
  is_resume, is_paused,
}
use pace_poker.Session.Loop.{Wakeup, envelope, deadline, remember, respond, turn}
use pace_poker.Session.Stored.{Stores, persist-Stores, persist-failed, keep-++}

module _ (env : Env) (dlr : Dealer) (hand_ids : Int64 → String) (game : Uuid)
    (codec : Codec env game) where
  -- Either the turn succeeds and stores what it answers with, or it fails and stores nothing.
  abbrev pub IsSound : W env → Outcome (List GameEvent) × W env → Type 0
  IsSound w (done es, w2) = Stores env game codec w es w2
  IsSound w (failed e, w2) = (w2.view ≡ w.view) × (w2.base ≡ w.base)

  persist-IsSound :
      (a b : String) (es : List GameEvent) (w : W env) → IsSound w (persist env a b game es w)
  persist-IsSound a b es w = elim (Run-cases (persist env a b game es w)) [
    | inl (out, w2, q) ↦ rw q (persist-Stores env game codec a b es out w w2 q)
    | inr (e, w2, q) ↦ rw q (persist-failed env game codec a b es w w2 e q)
  ]

  nothing-IsSound : (w : W env) → IsSound w (done [], w)
  unfolding params_of
  nothing-IsSound w = (
    [],
    tt,
    refl,
    ground (arith, append-nil w.base.events),
    ground (arith, append-nil w.view.events),
    refl,
    tt,
  )

  store_advance-IsSound :
      (es : List GameEvent) (w : W env) → IsSound w (store_advance env dlr hand_ids game es w)
  store_advance-IsSound [] w = nothing-IsSound w
  store_advance-IsSound (e ∷ es) w = persist-IsSound _ _ (e ∷ es) w

  after_engine-IsSound :
      (r : Result (List GameEvent) × dlr.State) (report : String → Err)
      (k : List GameEvent → Io env.Bytes (List GameEvent)) (w : W env)
      → ((es : List GameEvent) → IsSound w (k es w))
      → IsSound w (after_engine env dlr hand_ids game r report k w).0
  after_engine-IsSound (ok es, d) report k w f = f es
  after_engine-IsSound (err x, d) report k w f = (refl, refl)

  process_new-IsSound :
      (s : GameState) (actor : String) (cmd : PlayerCommand) (d : dlr.State) (w : W env)
      → IsSound w (process_new env dlr hand_ids game s actor cmd d w).0
  unfolding process_new handle_resume
  process_new-IsSound s actor cmd d w = elim (Bool-cases (is_resume cmd.payload)) [
    | inr e ↦ rw e (
        after_engine-IsSound (handle_command dlr hand_ids s cmd actor (some (env.clock w.tick)) d)
          (command_failed env dlr hand_ids game) (store_command env dlr hand_ids game cmd)
          (next env w)
          (λ es.
            persist-IsSound "stamp events" "persist events" (tag_events cmd.command_id es)
              (next env w)))
    | inl e ↦ elim (Bool-cases (is_paused s.status)) [
      | inl p ↦
          rw (e, p)
            (after_engine-IsSound
              (run_advance dlr hand_ids (apply s (bare table_resumed)) (some (env.clock w.tick)) d)
              (resume_failed env dlr hand_ids game) (store_resume env dlr hand_ids game cmd)
              (next env w)
              (λ es.
                persist-IsSound "stamp resume events" "persist resume events"
                  (tag_events cmd.command_id (bare table_resumed ∷ es)) (next env w)))
      | inr p ↦
          rw (e, p)
            (persist-IsSound "stamp resume rejection" "persist resume rejection"
              (tag_events cmd.command_id
                (to_command_rejected_event (not_paused s.status) s.game_id cmd.command_id ∷ []))
              w)
    ]
  ]

  run_proactive_advance-IsSound :
      (s : GameState) (d : dlr.State) (w : W env)
      → IsSound w (run_proactive_advance env dlr hand_ids game s d w).0
  unfolding run_proactive_advance
  run_proactive_advance-IsSound s d w =
      after_engine-IsSound (run_advance dlr hand_ids s (some (env.clock w.tick)) d) message
        (store_advance env dlr hand_ids game) (next env w)
        (λ es. store_advance-IsSound es (next env w))

  -- The log of the table holds events whose replay from `s0` is the state in memory.
  abbrev pub IsSynced : GameState → GameState → W env → Type 0
  IsSynced s0 s w =
      (es : List GameEvent) × Holds env (keep (of_game game) w.base.events) es
      × (s ≡ apply_all s0 es)
      × (w.view ≡ w.base)

  Holds-++ :
      (rows rows2 : List (EventRow env.Bytes)) (es es2 : List GameEvent)
      → Holds env rows es
      → Holds env rows2 es2
      → Holds env (rows ++ rows2) (es ++ es2)
  Holds-++ [] rows2 [] es2 h k = k
  Holds-++ [] rows2 (e ∷ es) es2 h k = elim h [ ]
  Holds-++ (r ∷ rs) rows2 [] es2 h k = elim h [ ]
  Holds-++ (r ∷ rs) rows2 (e ∷ es) es2 (a, b, c) k = (a, b, Holds-++ rs rows2 es es2 c k)

  IsSound-IsSynced :
      (s0 s : GameState) (w : W env) (r : Outcome (List GameEvent) × W env)
      → IsSound w r
      → IsSynced s0 s w
      → IsSynced s0 (remember s r) r.1
  IsSound-IsSynced s0 s w (failed e, w2) (v, b) (es, h, k, same) = (es, rw b h, k, v ∙ same ∙ sym b)
  IsSound-IsSynced s0 s w (done new, w2) (rows, holds, keeps, b, v, _, _) (es, h, k, same) =
      let add : Db env.Bytes → Db env.Bytes = λ x. record x { events = x.events ++ rows } in
      let grown : keep (of_game game) w2.base.events ≡ keep (of_game game) w.base.events ++ rows =
        ap (λ x. keep (of_game game) x.events) b
        ∙ keep-++ env game w.base.events rows
        ∙ ap (λ l. keep (of_game game) w.base.events ++ l) keeps in
      (
        es ++ new,
        rw grown (Holds-++ (keep (of_game game) w.base.events) rows es new h holds),
        ap (λ x. apply_all x new) k ∙ sym (apply_all-++ s0 es new),
        v ∙ ap add same ∙ sym b,
      )

  pub lookup-Reads : (cmd : String) → Reads (lookup_by_command_id env game cmd)
  unfolding lookup_by_command_id find_by_command
  lookup-Reads cmd w = ground arith

  -- Not a command whose id the look-up finds in the log of the table.
  abbrev pub IsNew : Wakeup → W env → Type 0
  IsNew deadline w = Unit
  IsNew (envelope actor cmd) w =
      (cmd.command_id ≡ "")
      ⊎ (((lookup_by_command_id env game cmd.command_id w).0 ≡ done [])
          ⊎ ((e : Err) × ((lookup_by_command_id env game cmd.command_id w).0 ≡ failed e)))

  IsSynced-world :
      (s0 s : GameState) (w w1 : W env)
      → (w1.view ≡ w.view) × (w1.base ≡ w.base)
      → IsSynced s0 s w
      → IsSynced s0 s w1
  IsSynced-world s0 s w w1 (v, b) (es, h, k, same) = (es, rw b h, k, v ∙ same ∙ sym b)

  answer_command-IsSound :
      (s : GameState) (actor : String) (cmd : PlayerCommand) (d : dlr.State)
      (r : Outcome (List GameEvent) × W env)
      → (r.0 ≡ done []) ⊎ ((e : Err) × (r.0 ≡ failed e))
      → IsSound r.1 (answer_command env dlr hand_ids game s actor cmd d r).0
  unfolding answer_command
  answer_command-IsSound s actor cmd d (done (e ∷ es), w) (inl x) = ground (arith, x)
  answer_command-IsSound s actor cmd d (done (e ∷ es), w) (inr (y, x)) = ground (arith, x)
  answer_command-IsSound s actor cmd d (done [], w) n = process_new-IsSound s actor cmd d w
  answer_command-IsSound s actor cmd d (failed e, w) n = process_new-IsSound s actor cmd d w

  answer_command-IsSynced :
      (s0 s : GameState) (actor : String) (cmd : PlayerCommand) (d : dlr.State)
      (r : Outcome (List GameEvent) × W env)
      → (r.0 ≡ done []) ⊎ ((e : Err) × (r.0 ≡ failed e))
      → IsSynced s0 s r.1
      → IsSynced s0
          (remember s (answer_command env dlr hand_ids game s actor cmd d r).0)
          (answer_command env dlr hand_ids game s actor cmd d r).0.1
  answer_command-IsSynced s0 s actor cmd d r n k =
      IsSound-IsSynced s0 s r.1 _ (answer_command-IsSound s actor cmd d r n) k

  -- A command that the log does not know is processed in the world after the look-up.
  pub process-IsSound :
      (s : GameState) (actor : String) (cmd : PlayerCommand) (d : dlr.State) (w : W env)
      → str_eq cmd.command_id "" ≡ false
      → ((lookup_by_command_id env game cmd.command_id w).0 ≡ done [])
        ⊎ ((e : Err) × ((lookup_by_command_id env game cmd.command_id w).0 ≡ failed e))
      → IsSound
          (lookup_by_command_id env game cmd.command_id w).1
          (process env dlr hand_ids game s actor cmd d w).0
  unfolding process
  process-IsSound s actor cmd d w named new =
      rw named
        (answer_command-IsSound s actor cmd d (lookup_by_command_id env game cmd.command_id w) new)

  process-IsSynced :
      (s0 s : GameState) (actor : String) (cmd : PlayerCommand) (d : dlr.State) (w : W env)
      → IsNew (envelope actor cmd) w
      → IsSynced s0 s w
      → IsSynced s0
          (remember s (process env dlr hand_ids game s actor cmd d w).0)
          (process env dlr hand_ids game s actor cmd d w).0.1
  unfolding process
  process-IsSynced s0 s actor cmd d w n k = elim (Bool-cases (str_eq cmd.command_id "")) [
    | inl e ↦ rw e (IsSound-IsSynced s0 s w _ (process_new-IsSound s actor cmd d w) k)
    | inr e ↦
        let looked =
          IsSynced-world s0 s w (lookup_by_command_id env game cmd.command_id w).1
            (lookup-Reads cmd.command_id w) k in
        elim n [
          | inl empty ↦ ground (arith, e, eq_iff cmd.command_id "", empty)
          | inr new ↦ rw e (
              answer_command-IsSynced s0 s actor cmd d
                (lookup_by_command_id env game cmd.command_id w) new looked)
        ]
  ]

  -- The session's invariant: when the state in memory is the replay of the events that the log of the
  -- table holds, it is so again after any turn: a command that is accepted, a command that is refused,
  -- a resumption, an expired deadline, a turn in which the engine, the dealer or the database fails,
  -- at whatever call. (The command's id is empty, or is not found in the log; what is written can be
  -- read back.)
  pub turn-IsSynced :
      (s0 s : GameState) (x : Wakeup) (d : dlr.State) (w : W env)
      → IsNew x w
      → IsSynced s0 s w
      → IsSynced s0 (turn env dlr hand_ids game x s d w).0 (turn env dlr hand_ids game x s d w).2
  unfolding turn respond
  turn-IsSynced s0 s deadline d w n k =
      IsSound-IsSynced s0 s w _ (run_proactive_advance-IsSound s d w) k
  turn-IsSynced s0 s (envelope actor cmd) d w n k = process-IsSynced s0 s actor cmd d w n k
