-- ===== src/Lobby/Leave.antt =====
-- The chips of a user and of the table over a departure (`LeaveTable` of
-- internal/lobby/join_leave.go).
use pace_poker.Prelude.{ℕ, ◌+◌, Int64, String, List, [], ◌∷◌, ◌≡◌, refl, arith, add64}
use pace_poker.Proto.{PlayerState, GameState, GameEvent, player_left, player_folded}
use pace_poker.Players.{get, adjust}
use pace_poker.Apply.{apply, apply_all, apply_event}
use pace_poker.Apply.Betting.{apply_player_folded, fold_player}
use pace_poker.Chips.Account.{chips, flow}
use pace_poker.Chips.Reducer.{apply-flow}
use pace_poker.Storage.Env.{Env}
use pace_poker.Storage.Io.{done, W}
use pace_poker.Lobby.Loading.{stamped, build_player_left_event, build_auto_fold_event}
use pace_poker.Lobby.Tables.{LeaveTableInput, leave_events, stack_or_zero}

adjusted-stack :
    (k : String) (m : List (String × PlayerState))
    → stack_or_zero (get k (adjust k fold_player m)) ≡ stack_or_zero (get k m)
adjusted-stack k [] = refl
adjusted-stack k ((j, p) ∷ m) = ground (arith, adjusted-stack k m)

-- A fold takes no chips from the player's stack.
folded-stack :
    (s : GameState) (e : GameEvent) (player : String)
    → e.event ≡ player_folded player
    → stack_or_zero (get player (apply s e).players) ≡ stack_or_zero (get player s.players)
unfolding apply apply_event apply_player_folded
folded-stack s e player k = ground (arith, k, adjusted-stack player s.players)

left-chips :
    (s : GameState) (e : GameEvent) (player reason : String) (x : Int64)
    → e.event ≡ player_left player x reason
    → add64 (chips (apply s e)) (stack_or_zero (get player s.players)) ≡ chips s
unfolding flow chips
left-chips s e player reason x k = ground (arith, apply-flow s e, k)

folded-chips :
    (s : GameState) (e : GameEvent) (player : String)
    → e.event ≡ player_folded player
    → chips (apply s e) ≡ chips s
unfolding flow chips
folded-chips s e player k = ground (arith, apply-flow s e, k)

module _ (env : Env) where
  -- The events of a departure take the player's stack off the table, with a fold before it or not.
  pub leave_events-chips :
      (input : LeaveTableInput) (s : GameState) (latest : ℕ) (player : String) (w w1 : W env)
      (es : List GameEvent)
      → leave_events env input s latest player (get player s.players) w ≡ (done es, w1)
      → (add64 (chips (apply_all s es)) (stack_or_zero (get player s.players)) ≡ chips s)
        × (w1.view ≡ w.view)
        × (w1.base ≡ w.base)
  unfolding leave_events build_auto_fold_event build_player_left_event apply_all
  leave_events-chips input s latest player w w1 es eq =
      let p = get player s.players in
      let e =
        stamped env input.game_id (add64 latest 1) input.command_id (add64 s.version 1)
          (player_left player (stack_or_zero p) "leave_request") (env.clock w.tick) in
      let f =
        stamped env input.game_id (add64 latest 1) input.command_id (add64 s.version 1)
          (player_folded player) (env.clock w.tick) in
      let g =
        stamped env input.game_id (add64 (add64 latest 1) 1) input.command_id
          (add64 (add64 s.version 1) 1) (player_left player (stack_or_zero p) "leave_request")
          (env.clock (w.tick + 1)) in
      ground (
        arith,
        eq,
        left-chips s e player "leave_request" (stack_or_zero p) refl,
        folded-chips s f player refl,
        folded-stack s f player refl,
        left-chips (apply s f) g player "leave_request" (stack_or_zero p) refl,
      )
