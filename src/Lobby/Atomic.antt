-- ===== src/Lobby/Atomic.antt =====
-- What a join of a table that fails leaves behind (`JoinTable` of internal/lobby/join_leave.go).
use pace_poker.Prelude.{ℕ, Int32, Option, none, some, ◌≡◌, sym, ap, ◌∙◌, arith}
use pace_poker.Proto.{GameState, GameEvent}
use pace_poker.Storage.Errors.{Err}
use pace_poker.Storage.Env.{Env}
use pace_poker.Storage.Io.{done, failed, >>=-step, in_tx, W, next}
use pace_poker.Storage.Events.{append_event}
use pace_poker.Storage.Accounts.{debit_user_balance}
use pace_poker.Storage.Frame.{KeepsBase, KeepsBase->>=, with_tx-failed, with_tx-keeps}
use pace_poker.Lobby.Loading.{build_player_joined_event}
use pace_poker.Lobby.Reading.{Reads-load_state, Reads-existing_event, Reads-replay_join}
use pace_poker.Lobby.Tables.{
  JoinTableInput, existing_event, seat_player, new_join, answer_join, join_table,
}

module _ (env : Env) where
  KeepsBase-seat_player :
      (input : JoinTableInput) (s : GameState) (latest : ℕ) (seat : Int32)
      → KeepsBase (seat_player env in_tx input s latest seat)
  unfolding seat_player build_player_joined_event append_event debit_user_balance
  KeepsBase-seat_player input s latest seat w = ground arith

  KeepsBase-new_join : (input : JoinTableInput) → KeepsBase (new_join env in_tx input)
  unfolding new_join
  KeepsBase-new_join input w =
      grind (arith, Reads-load_state env input.game_id, KeepsBase-seat_player input)

  KeepsBase-answer_join :
      (input : JoinTableInput) (found : Option GameEvent)
      → KeepsBase (answer_join env in_tx input found)
  unfolding answer_join
  KeepsBase-answer_join input (some e) w = (Reads-replay_join env input e w).1
  KeepsBase-answer_join input none w = KeepsBase-new_join input w

  -- A join that fails, for whatever reason and at whatever step, leaves every committed row as it
  -- was: no chips are taken and no event is written.
  pub join_table-failed :
      (input : JoinTableInput) (w w2 : W env) (e : Err)
      → join_table env input w ≡ (failed e, w2)
      → w2.base ≡ w.base
  unfolding join_table
  join_table-failed input w w2 e = with_tx-failed env _ w w2 e (
      KeepsBase->>= (existing_event env input.command_id input.game_id)
        (answer_join env in_tx input)
        (λ w'. (Reads-existing_event env input.command_id input.game_id w').1)
        (KeepsBase-answer_join input))

  -- A join whose command id the log of the table already holds is answered without a write: the
  -- committed rows stay as they were, whatever the answer is. (The join is not inside another
  -- transaction.)
  pub join_table-replayed :
      (input : JoinTableInput) (w w1 : W env) (e : GameEvent)
      → w.view ≡ w.base
      → existing_event env input.command_id input.game_id (next env w) ≡ (done (some e), w1)
      → (join_table env input w).1.base ≡ w.base
  unfolding join_table answer_join
  join_table-replayed input w w1 e same found =
      let (v, b) = Reads-existing_event env input.command_id input.game_id (next env w) in
      let (v2, b2) = Reads-replay_join env input e w1 in
      let step =
        >>=-step (existing_event env input.command_id input.game_id) (answer_join env in_tx input)
          (next env w) w1 (some e) found in
      with_tx-keeps env _ w same (ap (λ r. r.1.view) step ∙ v2 ∙ ap (λ r. r.1.view) (sym found) ∙ v)
        (ap (λ r. r.1.base) step ∙ b2 ∙ ap (λ r. r.1.base) (sym found) ∙ b)
