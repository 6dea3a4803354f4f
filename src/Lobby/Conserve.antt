-- ===== src/Lobby/Conserve.antt =====
-- The chips of a user and of the table, over a join and a departure (internal/lobby/join_leave.go).
use pace_poker.Prelude.{
  ℕ, Int32, String, none, [], ◌∷◌, ◌++◌, ◌≡◌, refl, sym, ap, ◌∙◌, inl, inr, arith, add64,
}
use pace_poker.Proto.{GameState, GameEvent, player_joined}
use pace_poker.Players.{get}
use pace_poker.Apply.{apply}
use pace_poker.Chips.Account.{chips, flow}
use pace_poker.Chips.Reducer.{apply-flow}
use pace_poker.Storage.Env.{Env}
use pace_poker.Storage.Db.{EventRow}
use pace_poker.Storage.Io.{done, Run-cases, >>=-step, Handle, in_tx, W, next}
use pace_poker.Storage.Events.{append_event}
use pace_poker.Storage.Accounts.{debit_user_balance}
use pace_poker.Storage.Balances.{balance_of, debit_user_balance-moves}
use pace_poker.Storage.Log.{append_event-adds}
use pace_poker.Storage.Frame.{with_tx-done}
use pace_poker.Lobby.Reading.{Reads-load_state, Reads-existing_event}
use pace_poker.Lobby.Loading.{load_state, build_player_joined_event, stamped}
use pace_poker.Lobby.Tables.{
  JoinTableInput, JoinTableResult, check_join, seat_player, new_join, existing_event, answer_join,
  join_table,
}

module _ (env : Env) where
  -- A player who takes a seat that no entry of the table has brings the buy-in.
  joined-chips :
      (s : GameState) (e : GameEvent) (player user : String) (seat : Int32) (x : ℕ)
      → e.event ≡ player_joined player user seat x
      → get player s.players ≡ none
      → chips (apply s e) ≡ add64 (chips s) x
  unfolding flow
  joined-chips s e player user seat x k n = ground (arith, apply-flow s e, k, n)

  seat_player-moves :
      (h : Handle) (input : JoinTableInput) (s : GameState) (latest : ℕ) (seat : Int32)
      (w w2 : W env) (r : JoinTableResult)
      → get (env.uuid_text input.user_id) s.players ≡ none
      → seat_player env h input s latest seat w ≡ (done r, w2)
      → (add64 (chips r.game_state) (balance_of input.user_id w2.view)
          ≡ add64 (chips s) (balance_of input.user_id w.view))
        × (r.user_new_balance ≡ balance_of input.user_id w2.view)
        × ((row : EventRow env.Bytes) × (w2.view.events ≡ w.view.events ++ row ∷ []))
  unfolding seat_player build_player_joined_event
  seat_player-moves h input s latest seat w w2 r n eq =
      let user = env.uuid_text input.user_id in
      let debit = debit_user_balance env h input.user_id input.buy_in in
      elim (Run-cases (debit w)) [
        | inr (x, w1, p) ↦ ground (arith, eq, p)
        | inl (snap, w1, p) ↦
            let e =
              stamped env input.game_id (add64 latest 1) input.command_id (add64 s.version 1)
                (player_joined user user seat input.buy_in) (env.clock w1.tick) in
            elim (Run-cases (append_event env h e (next env w1))) [
              | inr (x, w3, q) ↦ ground (arith, eq, p, q)
              | inl (u, w3, q) ↦
                  let (row, ok, adds) = append_event-adds env h e (next env w1) w3 u q in
                  let moves =
                    debit_user_balance-moves env h input.user_id input.buy_in w w1 snap p in
                  let joins = joined-chips s e user user seat input.buy_in refl n in
                  (
                    ground (arith, eq, p, q, adds, moves, joins),
                    ground (arith, eq, p, q, adds, moves),
                    (row, ground (arith, eq, p, q, adds, moves)),
                  )
            ]
      ]

  new_join-moves :
      (h : Handle) (input : JoinTableInput) (s : GameState) (latest : ℕ) (w w1 w2 : W env)
      (r : JoinTableResult)
      → load_state env input.game_id w ≡ (done (s, latest), w1)
      → get (env.uuid_text input.user_id) s.players ≡ none
      → new_join env h input w ≡ (done r, w2)
      → (add64 (chips r.game_state) (balance_of input.user_id w2.view)
          ≡ add64 (chips s) (balance_of input.user_id w.view))
        × (r.user_new_balance ≡ balance_of input.user_id w2.view)
        × ((row : EventRow env.Bytes) × (w2.view.events ≡ w.view.events ++ row ∷ []))
  unfolding new_join
  new_join-moves h input s latest w w1 w2 r load n eq =
      let v = (Reads-load_state env input.game_id w).0 in
      elim (Run-cases (check_join s input.buy_in input.seat (env.uuid_text input.user_id), w1)) [
        | inr (e, w3, q) ↦ ground (arith, eq, load, q)
        | inl (seat, w3, q) ↦
            let ran : seat_player env h input s latest seat w1 ≡ (done r, w2) =
              ground (arith, eq, load, q) in
            let moves = seat_player-moves h input s latest seat w1 w2 r n ran in
            rw (sym (sym (ap (λ x. x.1.view) load) ∙ v)) moves
      ]

  -- A join that succeeds and was not processed before moves the buy-in from the user's balance to the
  -- table: the chips on the table and the balance of the user have the same sum after it as before
  -- it, modulo 2 ^ 64, the answer states the balance that is committed, and the log has one event
  -- more. (The join is not inside another transaction, and no player of the table that the store
  -- gives has the user's id.)
  pub join_table-conserves :
      (input : JoinTableInput) (s : GameState) (latest : ℕ) (w w1 w2 w3 : W env)
      (r : JoinTableResult)
      → w.view ≡ w.base
      → existing_event env input.command_id input.game_id (next env w) ≡ (done none, w1)
      → load_state env input.game_id w1 ≡ (done (s, latest), w3)
      → get (env.uuid_text input.user_id) s.players ≡ none
      → join_table env input w ≡ (done r, w2)
      → (add64 (chips r.game_state) (balance_of input.user_id w2.base)
          ≡ add64 (chips s) (balance_of input.user_id w.base))
        × (r.user_new_balance ≡ balance_of input.user_id w2.base)
        × ((row : EventRow env.Bytes) × (w2.base.events ≡ w.base.events ++ row ∷ []))
  unfolding join_table answer_join
  join_table-conserves input s latest w w1 w2 w3 r same found load n eq =
      let v = (Reads-existing_event env input.command_id input.game_id (next env w)).0 in
      let (w4, ran, base, view) = with_tx-done env _ w w2 r eq in
      let step =
        >>=-step (existing_event env input.command_id input.game_id) (answer_join env in_tx input)
          (next env w) w1 none found in
      let moves = new_join-moves in_tx input s latest w1 w3 w4 r load n (sym step ∙ ran) in
      rw (base, sym (sym (ap (λ x. x.1.view) found) ∙ v ∙ same)) moves
