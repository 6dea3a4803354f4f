-- ===== src/Server/Refused.antt =====
-- What a request to join that is refused leaves behind (internal/server/server.go).
use pace_poker.Prelude.{
  ℕ, zero, suc, String, Bool, ◌&&◌, not, Option, none, some, le64, lt32, ◌≡◌, ◌∙◌, inl, inr, arith,
  Bool-cases, Option-cases,
}
use pace_poker.Storage.Errors.{Err, is_err, concurrent_write}
use pace_poker.Storage.Env.{Env, Uuid}
use pace_poker.Storage.Io.{failed, Io, W, Run-cases}
use pace_poker.Router.{Sessions}
use pace_poker.Lobby.Tables.{JoinTableInput, JoinTableResult, join_table}
use pace_poker.Lobby.Atomic.{join_table-failed}
use pace_poker.Server.Lobby.{
  refused, Status, JoinTableCommand, retry, retries, parse_or_gen_uuid, reply_join, run_join,
  handle_join_table,
}

module _ (env : Env) (cancelled : ℕ → Bool) where
  -- A call that commits nothing where it fails.
  abbrev pub IsAtomic : {A : Type 0} → Io env.Bytes A → Type 0
  IsAtomic m = (w w2 : W env) (e : Err) → m w ≡ (failed e, w2) → w2.base ≡ w.base

  retry-IsAtomic :
      {A : Type 0} (n : ℕ) (m : Io env.Bytes A) → IsAtomic m → IsAtomic (retry env cancelled n m)
  unfolding retry
  retry-IsAtomic zero m a w w2 e h = a w w2 e h
  retry-IsAtomic (suc n) m a w w2 e h = elim (Run-cases (m w)) [
    | inl (x, w1, q) ↦ ground (arith, h, q)
    | inr (x, w1, q) ↦ elim (Bool-cases (is_err x concurrent_write && not (cancelled w1.tick))) [
      | inl again ↦ retry-IsAtomic n m a w1 w2 e (ground (arith, h, q, again)) ∙ a w w1 x q
      | inr stop ↦ ground (arith, h, q, stop, a w w1 x q)
    ]
  ]

  reply_join-refused :
      {S : Type 0} (game : Uuid) (m m2 : Sessions S) (w w2 : W env)
      (run : Io env.Bytes JoinTableResult) (s : Status)
      → IsAtomic run
      → reply_join env cancelled game m (run w) ≡ ((refused s, w2), m2)
      → (w2.base ≡ w.base) × (m2 ≡ m)
  reply_join-refused game m m2 w w2 run s a h = elim (Run-cases (run w)) [
    | inl (x, w1, q) ↦ ground (arith, h, q)
    | inr (x, w1, q) ↦ let kept = a w w1 x q in (ground (arith, h, q, kept), ground (arith, h, q))
  ]

  run_join-refused :
      {S : Type 0} (req : JoinTableCommand) (game user : Uuid) (m m2 : Sessions S) (o : Option Uuid)
      (w w2 : W env) (s : Status)
      → run_join env cancelled req game user m (o, w) ≡ ((refused s, w2), m2)
      → (w2.base ≡ w.base) × (m2 ≡ m)
  run_join-refused req game user m m2 none w w2 s h = (ground (arith, h), ground (arith, h))
  run_join-refused req game user m m2 (some cmd) w w2 s h =
      let input : JoinTableInput = record {
        command_id = cmd;
        game_id = game;
        user_id = user;
        seat = req.seat;
        buy_in = req.buy_in;
      } in
      reply_join-refused game m m2 w w2 (retry env cancelled retries (join_table env input)) s
        (retry-IsAtomic retries (join_table env input) (join_table-failed env input)) h

  parse_or_gen_uuid-base :
      (text : String) (w : W env) → (parse_or_gen_uuid env cancelled text w).1.base ≡ w.base
  unfolding parse_or_gen_uuid
  parse_or_gen_uuid-base text w = ground arith

  -- A request to join a table that is answered with a status, for an argument that is refused, by a
  -- rule of the lobby, for a failure of the database or after the last of the attempts that met a
  -- concurrent write, leaves every committed row as it was, and the router keeps its sessions: no
  -- attempt has taken chips or written an event.
  pub handle_join_table-refused :
      {S : Type 0} (actor : Option Uuid) (req : JoinTableCommand) (m m2 : Sessions S) (w w2 : W env)
      (s : Status)
      → handle_join_table env cancelled actor req m w ≡ ((refused s, w2), m2)
      → (w2.base ≡ w.base) × (m2 ≡ m)
  unfolding handle_join_table
  handle_join_table-refused actor req m m2 w w2 s h =
      elim (Option-cases (env.parse_uuid req.game_id)) [
        | inl bad ↦ (ground (arith, h, bad), ground (arith, h, bad))
        | inr (game, g) ↦ elim (Option-cases actor) [
          | inl nobody ↦ (ground (arith, h, g, nobody), ground (arith, h, g, nobody))
          | inr (user, u) ↦ elim (Bool-cases (le64 req.buy_in 0)) [
            | inl low ↦ (ground (arith, h, g, u, low), ground (arith, h, g, u, low))
            | inr fair ↦ elim (Bool-cases (lt32 req.seat 0)) [
              | inl bad ↦ (ground (arith, h, g, u, fair, bad), ground (arith, h, g, u, fair, bad))
              | inr good ↦
                  let (o, w1) = parse_or_gen_uuid env cancelled req.command_id w in
                  let ran : run_join env cancelled req game user m (o, w1) ≡ ((refused s, w2), m2) =
                    ground (arith, h, g, u, fair, good) in
                  let kept = run_join-refused req game user m m2 o w1 w2 s ran in
                  (kept.0 ∙ parse_or_gen_uuid-base req.command_id w, kept.1)
            ]
          ]
        ]
      ]
