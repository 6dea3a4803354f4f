-- ===== src/Router/Fresh.antt =====
-- After `Invalidate`, the next command meets the state of the store (internal/engine/router.go).
use pace_poker.Prelude.{ℕ, none, some, [], ◌∷◌, ◌≡◌, ◌≢◌, refl, inl, inr, arith}
use pace_poker.Proto.{GameState}
use pace_poker.Storage.Env.{Env, Uuid}
use pace_poker.Storage.Io.{done, W, Run-cases}
use pace_poker.Storage.Tables.{get_latest_snapshot}
use pace_poker.Lobby.Loading.{load_state, load_pages, rounds_for}
use pace_poker.Router.{
  Sessions, session_of, without, invalidate, load_game, get_or_load, fresh_session,
}

module _ {S : Type 0} where
  session_of-without : (game : Uuid) (m : Sessions S) → session_of game (without game m) ≡ none
  session_of-without game [] = refl
  session_of-without game ((id, s) ∷ m) = ground (arith, session_of-without game m)

  session_of-without_other :
      (game other : Uuid) (m : Sessions S)
      → game ≢ other
      → session_of other (without game m) ≡ session_of other m
  session_of-without_other game other [] n = refl
  session_of-without_other game other ((id, s) ∷ m) n =
      ground (arith, n, session_of-without_other game other m n)

module _ (env : Env) where
  -- The router loads what `LoadState` loads.
  load_game-state :
      (game : Uuid) (s : GameState) (latest : ℕ) (w w1 : W env)
      → load_state env game w ≡ (done (s, latest), w1)
      → load_game env game w ≡ (done s, w1)
  unfolding load_state load_game
  load_game-state game s latest w w1 h = elim (Run-cases (get_latest_snapshot env game w)) [
    | inr (e, w2, q) ↦ ground (arith, h, q)
    | inl (snap, w2, q) ↦
        let pages : load_pages env (rounds_for env w2.view) game snap.0 snap.1 w2
            ≡ (done (s, latest), w1) =
          ground (arith, h, q) in
        ground (arith, q, pages)
  ]

  pub get_or_load-fresh :
      {S : Type 0} (game : Uuid) (d : S) (m : Sessions S) (s : GameState) (latest : ℕ)
      (w w1 : W env)
      → load_state env game w ≡ (done (s, latest), w1)
      → (get_or_load env game d (invalidate game m) w).0 ≡ (done (fresh_session env d s), w1)
  unfolding get_or_load invalidate
  get_or_load-fresh game d m s latest w w1 h =
      let gone = session_of-without game m in
      let loaded = load_game-state game s latest w w1 h in ground (arith, gone, loaded)

  -- After the session of a table is invalidated, the next command for the table meets the state that
  -- `LoadState` gives, whatever the session held in memory, and the session then stands for the table;
  -- the session of every other table is the one before. (`LoadState` succeeds.)
  pub get_or_load-invalidate :
      {S : Type 0} (game other : Uuid) (d : S) (m : Sessions S) (s : GameState) (latest : ℕ)
      (w w1 : W env)
      → game ≢ other
      → load_state env game w ≡ (done (s, latest), w1)
      → ((get_or_load env game d (invalidate game m) w).0 ≡ (done (fresh_session env d s), w1))
        × (session_of game (get_or_load env game d (invalidate game m) w).1
            ≡ some (fresh_session env d s))
        × (session_of other (get_or_load env game d (invalidate game m) w).1 ≡ session_of other m)
  unfolding get_or_load invalidate
  get_or_load-invalidate game other d m s latest w w1 n h =
      let gone = session_of-without game m in
      let loaded = load_game-state game s latest w w1 h in
      (
        get_or_load-fresh game d m s latest w w1 h,
        ground (arith, gone, loaded),
        ground (arith, gone, loaded, n, session_of-without_other game other m n),
      )
