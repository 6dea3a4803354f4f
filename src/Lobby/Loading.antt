-- ===== src/Lobby/Loading.antt =====
-- internal/engine/lobby.go: a table's state from its snapshot and the events after it, and the
-- events of the lobby.
use pace_poker.Prelude.{ℕ, zero, suc, Int32, Int64, String, some, List, [], ◌∷◌, add64, length}
use pace_poker.Proto.{GameState, GameEvent, Event, player_joined, player_left, player_folded}
use pace_poker.Apply.{apply_all}
use pace_poker.Storage.Errors.{message, wrap}
use pace_poker.Storage.Env.{Env, Uuid}
use pace_poker.Storage.Db.{Db}
use pace_poker.Storage.Io.{Io, ◌>>=◌, pure, fail, or_fail, now}
use pace_poker.Storage.Events.{get_events}
use pace_poker.Storage.Tables.{get_latest_snapshot, command_text}

abbrev pub page_size : ℕ
page_size = 500

-- `events[len(events)-1].GetSequence()`, for a first event and those after it.
abbrev pub last_sequence : GameEvent → List GameEvent → ℕ
last_sequence e [] = e.sequence
last_sequence e (f ∷ es) = last_sequence f es

-- `k` goes on with the state after a page; an empty page ends the loop.
abbrev pub after_page :
    {B : Type 0}
    → (GameState → ℕ → Io B (GameState × ℕ))
    → GameState
    → ℕ
    → List GameEvent
    → Io B (GameState × ℕ)
after_page k s latest [] = pure (s, latest)
after_page k s latest (e ∷ es) = k (apply_all s (e ∷ es)) (last_sequence e es)

module _ (env : Env) where
  -- The loop of `LoadState`, one page of events a round.
  unfoldable pub load_pages : ℕ → Uuid → GameState → ℕ → Io env.Bytes (GameState × ℕ)
  load_pages zero game s latest = fail (message "the rounds are used up")
  load_pages (suc rounds) game s latest = do
    events ← or_fail (wrap "load events") (get_events env game (add64 latest 1) page_size)
    after_page (load_pages rounds game) s latest events

  -- A round for every event of the store, and one that finds none.
  abbrev pub rounds_for : Db env.Bytes → ℕ
  rounds_for db = suc (length db.events)

  -- `LoadState`.
  unfoldable pub load_state : Uuid → Io env.Bytes (GameState × ℕ)
  load_state game = do
    snapshot ← or_fail (wrap "load snapshot") (get_latest_snapshot env game)
    λ w. load_pages (rounds_for w.view) game snapshot.0 snapshot.1 w

  -- What the three events of the lobby share; `at` is `timestamppb.Now()`.
  abbrev pub stamped : Uuid → ℕ → Uuid → Int64 → Event → ℕ → GameEvent
  stamped game seq cmd version e at = record {
    game_id = env.uuid_text game;
    sequence = seq;
    occurred_at = some at;
    caused_by_command_id = command_text env cmd;
    state_version = version;
    event = e;
  }

  -- `BuildPlayerJoinedEvent`.
  unfoldable pub build_player_joined_event :
      Uuid → ℕ → Uuid → String → String → Int32 → Int64 → Int64 → Io env.Bytes GameEvent
  build_player_joined_event game seq cmd player user seat buy_in version = do
    at ← now env
    pure (stamped game seq cmd version (player_joined player user seat buy_in) at)

  -- `BuildPlayerLeftEvent`.
  unfoldable pub build_player_left_event :
      Uuid → ℕ → Uuid → String → Int64 → Int64 → Io env.Bytes GameEvent
  build_player_left_event game seq cmd player cash_out version = do
    at ← now env
    pure (stamped game seq cmd version (player_left player cash_out "leave_request") at)

  -- `BuildAutoFoldEvent`.
  unfoldable pub build_auto_fold_event : Uuid → ℕ → Uuid → String → Int64 → Io env.Bytes GameEvent
  build_auto_fold_event game seq cmd player version = do
    at ← now env
    pure (stamped game seq cmd version (player_folded player) at)
