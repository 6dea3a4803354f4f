-- ===== src/Lobby/Reading.antt =====
-- The steps of internal/lobby/join_leave.go and internal/engine/lobby.go that write nothing.
use pace_poker.Prelude.{ℕ, zero, suc, List, [], ◌∷◌, add64, refl, arith}
use pace_poker.Proto.{GameState, GameEvent}
use pace_poker.Apply.{apply_all}
use pace_poker.Storage.Errors.{wrap}
use pace_poker.Storage.Env.{Env, Uuid}
use pace_poker.Storage.Io.{Io, or_fail}
use pace_poker.Storage.Events.{get_events, find_by_command}
use pace_poker.Storage.Tables.{get_latest_snapshot}
use pace_poker.Storage.Accounts.{get_user_snapshot}
use pace_poker.Storage.Frame.{Reads, Reads->>=}
use pace_poker.Lobby.Loading.{load_state, load_pages, last_sequence, after_page, page_size}
use pace_poker.Lobby.Tables.{JoinTableInput, existing_event, replayed, replay_join}

module _ (env : Env) where
  Reads-get_events : (game : Uuid) (from n : ℕ) → Reads (get_events env game from n)
  unfolding get_events
  Reads-get_events game from n w = ground arith

  Reads-after_page :
      (k : GameState → ℕ → Io env.Bytes (GameState × ℕ))
      → ((s : GameState) (latest : ℕ) → Reads (k s latest))
      → (s : GameState) (latest : ℕ) (es : List GameEvent) → Reads (after_page k s latest es)
  Reads-after_page k kk s latest [] = λ w. (refl, refl)
  Reads-after_page k kk s latest (e ∷ es) = kk (apply_all s (e ∷ es)) (last_sequence e es)

  pub Reads-load_pages :
      (n : ℕ) (game : Uuid) (s : GameState) (latest : ℕ) → Reads (load_pages env n game s latest)
  unfolding load_pages
  Reads-load_pages zero game s latest = λ w. (refl, refl)
  Reads-load_pages (suc n) game s latest =
      Reads->>= (or_fail (wrap "load events") (get_events env game (add64 latest 1) page_size))
        (after_page (load_pages env n game) s latest) (λ w. grind (arith, Reads-get_events))
        (Reads-after_page (load_pages env n game) (Reads-load_pages n game) s latest)

  pub Reads-load_state : (game : Uuid) → Reads (load_state env game)
  unfolding load_state get_latest_snapshot
  Reads-load_state game w = grind (arith, Reads-load_pages)

  pub Reads-existing_event : (cmd game : Uuid) → Reads (existing_event env cmd game)
  unfolding existing_event find_by_command
  Reads-existing_event cmd game w = ground arith

  pub Reads-get_user_snapshot : (user : Uuid) → Reads (get_user_snapshot env user)
  unfolding get_user_snapshot
  Reads-get_user_snapshot user w = ground arith

  pub Reads-replay_join : (input : JoinTableInput) (e : GameEvent) → Reads (replay_join env input e)
  unfolding replayed
  Reads-replay_join input e w =
      grind (arith, Reads-load_state input.game_id, Reads-get_user_snapshot input.user_id)
