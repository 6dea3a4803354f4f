-- ===== src/Router.antt =====
-- internal/engine/router.go: the sessions in memory, by the table's id. The mutex makes each
-- operation one step; the goroutines and the ticker of the reaper are not part of the model.
pub mod Fresh
use pace_poker.Prelude.{
  ℕ, Bool, true, false, not, Option, none, some, List, [], ◌∷◌, keep, ◌==◌, if◌then◌else◌,
}
use pace_poker.Proto.{GameState}
use pace_poker.Storage.Errors.{Err, sentinel, wrap, is_err, not_found, game_not_found}
use pace_poker.Storage.Env.{Env, Uuid}
use pace_poker.Storage.Io.{Outcome, done, failed, Io, W, ◌>>=◌, pure, or_fail}
use pace_poker.Storage.Tables.{get_latest_snapshot}
use pace_poker.Lobby.Loading.{load_pages, rounds_for}

pub record Session (S : Type 0) : Type 0 where
  pub state : GameState
  pub dealer : S
  pub closed : Bool

abbrev pub Sessions : Type 0 → Type 0
Sessions S = List (Uuid × Session S)

abbrev pub session_of : {S : Type 0} → Uuid → Sessions S → Option (Session S)
session_of game [] = none
session_of game ((id, s) ∷ m) = if id == game then some s else session_of game m

-- `delete(r.sessions, gameID)`.
abbrev pub without : {S : Type 0} → Uuid → Sessions S → Sessions S
without game [] = []
without game ((id, s) ∷ m) = if id == game then without game m else (id, s) ∷ without game m

-- `Invalidate`.
unfoldable pub invalidate : {S : Type 0} → Uuid → Sessions S → Sessions S
invalidate game m = without game m

-- `reapOnce`.
unfoldable pub reap_once : {S : Type 0} → Sessions S → Sessions S
reap_once [] = []
reap_once ((id, s) ∷ m) = if s.closed then reap_once m else (id, s) ∷ reap_once m

abbrev pub or_no_such_game : Err → Err
or_no_such_game e = if is_err e not_found then sentinel game_not_found else wrap "load snapshot" e

module _ (env : Env) where
  -- `loadState`, with the rounds of `LoadState`.
  unfoldable pub load_game : Uuid → Io env.Bytes GameState
  load_game game = do
    snapshot ← or_fail or_no_such_game (get_latest_snapshot env game)
    loaded ← λ w. load_pages env (rounds_for env w.view) game snapshot.0 snapshot.1 w
    pure loaded.0

  abbrev pub fresh_session : {S : Type 0} → S → GameState → Session S
  fresh_session d s = record { state = s; dealer = d; closed = false }

  abbrev pub keep_loaded :
      {S : Type 0}
      → Uuid
      → S
      → Sessions S
      → Outcome GameState × W env
      → (Outcome (Session S) × W env) × Sessions S
  keep_loaded game d m (done s, w) = ((done (fresh_session d s), w), (game, fresh_session d s) ∷ m)
  keep_loaded game d m (failed e, w) = ((failed e, w), m)

  -- `getOrLoad`, with the dealer that the factory would make.
  unfoldable pub get_or_load :
      {S : Type 0} → Uuid → S → Sessions S → W env → (Outcome (Session S) × W env) × Sessions S
  get_or_load game d m w = elim (session_of game m) [
    | some s ↦ ((done s, w), m)
    | none ↦ keep_loaded game d m (load_game game w)
  ]
