-- ===== src/Server/Joined.antt =====
-- What a request to join that succeeds leaves in the router (internal/server/server.go, router.go).
use pace_poker.Prelude.{
  ℕ, Bool, Option, none, some, le64, lt32, ◌≡◌, ap, ◌∙◌, inl, inr, arith, Bool-cases, Option-cases,
}
use pace_poker.Proto.{GameState}
use pace_poker.Storage.Env.{Env, Uuid}
use pace_poker.Storage.Io.{done, Io, W, Run-cases}
use pace_poker.Lobby.Tables.{JoinTableInput, JoinTableResult, join_table}
use pace_poker.Lobby.Loading.{load_state}
use pace_poker.Router.{Sessions, invalidate, get_or_load, fresh_session}
use pace_poker.Router.Fresh.{get_or_load-fresh}
use pace_poker.Server.Lobby.{
  replied, JoinTableCommand, retry, retries, parse_or_gen_uuid, reply_join, run_join,
  handle_join_table,
}

module _ (env : Env) (cancelled : ℕ → Bool) where
  reply_join-invalidates :
      {S : Type 0} (game : Uuid) (m m2 : Sessions S) (w w2 : W env)
      (run : Io env.Bytes JoinTableResult) (s : GameState)
      → reply_join env cancelled game m (run w) ≡ ((replied s, w2), m2)
      → m2 ≡ invalidate game m
  reply_join-invalidates game m m2 w w2 run s h = elim (Run-cases (run w)) [
    | inl (x, w1, q) ↦ ground (arith, h, q)
    | inr (x, w1, q) ↦ ground (arith, h, q)
  ]

  run_join-invalidates :
      {S : Type 0} (req : JoinTableCommand) (game user : Uuid) (m m2 : Sessions S) (o : Option Uuid)
      (w w2 : W env) (s : GameState)
      → run_join env cancelled req game user m (o, w) ≡ ((replied s, w2), m2)
      → m2 ≡ invalidate game m
  run_join-invalidates req game user m m2 none w w2 s h = ground (arith, h)
  run_join-invalidates req game user m m2 (some cmd) w w2 s h =
      let input : JoinTableInput = record {
        command_id = cmd;
        game_id = game;
        user_id = user;
        seat = req.seat;
        buy_in = req.buy_in;
      } in
      reply_join-invalidates game m m2 w w2 (retry env cancelled retries (join_table env input)) s h

  handle_join_table-invalidates :
      {S : Type 0} (game : Uuid) (actor : Option Uuid) (req : JoinTableCommand) (m m2 : Sessions S)
      (w w2 : W env) (s : GameState)
      → env.parse_uuid req.game_id ≡ some game
      → handle_join_table env cancelled actor req m w ≡ ((replied s, w2), m2)
      → m2 ≡ invalidate game m
  unfolding handle_join_table
  handle_join_table-invalidates game actor req m m2 w w2 s g h = elim (Option-cases actor) [
    | inl nobody ↦ ground (arith, h, g, nobody)
    | inr (user, u) ↦ elim (Bool-cases (le64 req.buy_in 0)) [
      | inl low ↦ ground (arith, h, g, u, low)
      | inr fair ↦ elim (Bool-cases (lt32 req.seat 0)) [
        | inl bad ↦ ground (arith, h, g, u, fair, bad)
        | inr good ↦
            let (o, w1) = parse_or_gen_uuid env cancelled req.command_id w in
            let ran : run_join env cancelled req game user m (o, w1) ≡ ((replied s, w2), m2) =
              ground (arith, h, g, u, fair, good) in
            run_join-invalidates req game user m m2 o w1 w2 s ran
      ]
    ]
  ]

  -- After a request to join a table has been answered with the table's state, the next command for
  -- the table meets a session with the state that `LoadState` then gives from the store, whatever a
  -- session held in memory before. (The game's id is well formed, and `LoadState` succeeds.)
  pub handle_join_table-reloads :
      {S : Type 0} (game : Uuid) (actor : Option Uuid) (req : JoinTableCommand) (d : S)
      (m m2 : Sessions S) (w w2 w3 : W env) (s loaded : GameState) (latest : ℕ)
      → env.parse_uuid req.game_id ≡ some game
      → handle_join_table env cancelled actor req m w ≡ ((replied s, w2), m2)
      → load_state env game w2 ≡ (done (loaded, latest), w3)
      → (get_or_load env game d m2 w2).0 ≡ (done (fresh_session env d loaded), w3)
  handle_join_table-reloads game actor req d m m2 w w2 w3 s loaded latest g h l =
      ap (λ t. (get_or_load env game d t w2).0)
        (handle_join_table-invalidates game actor req m m2 w w2 s g h)
      ∙ get_or_load-fresh env game d m loaded latest w2 w3 l
