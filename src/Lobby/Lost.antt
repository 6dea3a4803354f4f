-- ===== src/Lobby/Lost.antt =====
-- A departure that fails after its events are written (`LeaveTable` of
-- internal/lobby/join_leave.go, `AppendEvents` of internal/store/store.go).
use pace_poker.Prelude.{ℕ, Int64, String, none, some, List, ◌++◌, ◌≡◌, sym, ap, ◌∙◌, arith}
use pace_poker.Proto.{GameState, GameEvent}
use pace_poker.Players.{get}
use pace_poker.Storage.Errors.{Err}
use pace_poker.Storage.Env.{Env, Uuid}
use pace_poker.Storage.Db.{EventRow}
use pace_poker.Storage.Io.{done, failed, Io, >>=-step, Handle, in_tx, W, next, roll_back, with_tx}
use pace_poker.Storage.Events.{append_events, params_of}
use pace_poker.Storage.Accounts.{get_user_snapshot, credit_user_balance}
use pace_poker.Storage.Log.{append_events-adds}
use pace_poker.Storage.Frame.{KeepsBase}
use pace_poker.Lobby.Reading.{Reads-load_state, Reads-existing_event}
use pace_poker.Lobby.Loading.{load_state}
use pace_poker.Lobby.Seating.{find_player_by_user_id}
use pace_poker.Lobby.Leave.{leave_events-chips}
use pace_poker.Lobby.Tables.{
  LeaveTableInput, leave_events, pay_out, pay_player, unseat_player, new_leave, existing_event,
  answer_leave, leave_table, stack_or_zero,
}

module _ (env : Env) where
  KeepsBase-pay_out : (user : Uuid) (x : Int64) → KeepsBase (pay_out env in_tx user x)
  unfolding pay_out credit_user_balance get_user_snapshot
  KeepsBase-pay_out user x w = ground arith

  with_tx-fails :
      {A : Type 0} (body : Handle → Io env.Bytes A) (w w2 : W env) (e : Err)
      → env.fault w.tick ≡ none
      → body in_tx (next env w) ≡ (failed e, w2)
      → with_tx env body w ≡ (failed e, roll_back env w2)
  unfolding with_tx
  with_tx-fails body w w2 e begins h = ground (arith, begins, h)

  -- When the events of a departure are written and the payment after them fails, the departure
  -- fails, and yet its events stay committed while no balance changes: the rollback does not reach
  -- them, since they are written in a transaction of their own. The player is off the table, and the
  -- stack is nowhere.
  pub leave_table-loses :
      (input : LeaveTableInput) (s : GameState) (latest : ℕ) (player : String) (es : List GameEvent)
      (e : Err) (u : Unit {0}) (w w1 w2 w3 w4 w5 : W env)
      → env.fault w.tick ≡ none
      → existing_event env input.command_id input.game_id (next env w) ≡ (done none, w1)
      → load_state env input.game_id w1 ≡ (done (s, latest), w2)
      → find_player_by_user_id s (env.uuid_text input.user_id) ≡ some player
      → leave_events env input s latest player (get player s.players) w2 ≡ (done es, w3)
      → append_events env es w3 ≡ (done u, w4)
      → pay_out env in_tx input.user_id (stack_or_zero (get player s.players)) w4 ≡ (failed e, w5)
      → ((leave_table env input w).0 ≡ failed e)
        × ((leave_table env input w).1.base.balances ≡ w.base.balances)
        × ((rows : List (EventRow env.Bytes)) × (params_of env es ≡ done rows)
            × ((leave_table env input w).1.base.events ≡ w.base.events ++ rows))
  unfolding leave_table answer_leave new_leave unseat_player pay_player
  leave_table-loses input s latest player es e u w w1 w2 w3 w4 w5 begins found load seated q a c =
      let b = (Reads-existing_event env input.command_id input.game_id (next env w)).1 in
      let b1 = (Reads-load_state env input.game_id w1).1 in
      let (taken, view3, base3) = leave_events-chips env input s latest player w2 w3 es q in
      let (rows, ok, base4, view4) = append_events-adds env es w3 w4 u a in
      let b5 = KeepsBase-pay_out input.user_id (stack_or_zero (get player s.players)) w4 in
      let start : w3.base ≡ w.base =
        base3 ∙ sym (ap (λ x. x.1.base) load) ∙ b1 ∙ sym (ap (λ x. x.1.base) found) ∙ b in
      let end : w5.base ≡ record w3.base { events = w3.base.events ++ rows } =
        sym (ap (λ x. x.1.base) c) ∙ b5 ∙ base4 in
      let body : unseat_player env in_tx input s latest player w2 ≡ (failed e, w5) =
        ground (arith, q, a, c) in
      let step =
        >>=-step (existing_event env input.command_id input.game_id) (answer_leave env in_tx input)
          (next env w) w1 none found in
      let ran : new_leave env in_tx input w1 ≡ (failed e, w5) =
        ground (arith, load, seated, body) in
      let result = with_tx-fails _ w w5 e begins (step ∙ ran) in
      (
        ap (λ x. x.0) result,
        ap (λ x. x.1.base.balances) result ∙ ap (λ d. d.balances) end ∙ ap (λ d. d.balances) start,
        (
          rows,
          ok,
          ap (λ x. x.1.base.events) result
              ∙ ap (λ d. d.events) end
              ∙ ap (λ d. d.events ++ rows) start,
        ),
      )
