-- ===== src/Storage/Log.antt =====
-- What appending to the event log writes (`AppendEvent` and `AppendEvents` of
-- internal/store/store.go).
use mathlib.Core.List.{append_assoc, append-nil}
use pace_poker.Prelude.{List, [], ◌∷◌, ◌++◌, ◌≡◌, ◌∙◌, inl, inr, arith, Option-cases}
use pace_poker.Proto.{GameEvent}
use pace_poker.Storage.Errors.{Err}
use pace_poker.Storage.Env.{Env}
use pace_poker.Storage.Db.{Db, EventRow}
use pace_poker.Storage.Io.{
  done, failed, Run-cases, Outcome-cases, >>=-eq-done, or_fail-eq-done, or_fail, lift, Handle, W,
  next, write,
}
use pace_poker.Storage.EventQueries.{append_game_event, append_game_events}
use pace_poker.Storage.Events.{
  event_to_params, params_of, append_event, append_events, or_concurrent, copy_rows,
}
use pace_poker.Storage.Balances.{write-done}

module _ {B : Type 0} where
  append_game_event-adds :
      (r : EventRow B) (db db2 : Db B) (u : Unit {0})
      → append_game_event r db ≡ done (u, db2)
      → db2 ≡ record db { events = db.events ++ r ∷ [] }
  unfolding append_game_event
  append_game_event-adds r db db2 u h = ground (arith, h)

  -- A copy that succeeds adds all its rows, in their order.
  pub append_game_events-adds :
      (rs : List (EventRow B)) (db db2 : Db B) (u : Unit {0})
      → append_game_events rs db ≡ done (u, db2)
      → db2 ≡ record db { events = db.events ++ rs }
  unfolding append_game_events
  append_game_events-adds [] db db2 u h = ground (arith, h, append-nil db.events)
  append_game_events-adds (r ∷ rs) db db2 u h = elim (Outcome-cases (append_game_event r db)) [
    | inr (e, q) ↦ ground (arith, h, q)
    | inl ((v, db1), q) ↦
        let first = append_game_event-adds r db db1 v q in
        let rest = append_game_events-adds rs db1 db2 u (ground (arith, h, q)) in
        ground (arith, first, rest, append_assoc db.events (r ∷ []) rs)
  ]

module _ (env : Env) where
  -- A bulk append that succeeds has committed its rows, also where the store is that of an open
  -- transaction, which sees them too; nothing else changes.
  pub append_events-adds :
      (es : List GameEvent) (w w2 : W env) (u : Unit {0})
      → append_events env es w ≡ (done u, w2)
      → (rows : List (EventRow env.Bytes)) × (params_of env es ≡ done rows)
        × (w2.base ≡ record w.base { events = w.base.events ++ rows })
        × (w2.view ≡ record w.view { events = w.view.events ++ rows })
  unfolding append_events
  append_events-adds es w w2 u eq = elim (Option-cases (env.fault w.tick)) [
    | inr (x, f) ↦ ground (arith, eq, f)
    | inl begins ↦ elim (Outcome-cases (params_of env es)) [
      | inr (x, q) ↦ ground (arith, eq, begins, q)
      | inl (rows, q) ↦ elim (Run-cases (copy_rows env rows (next env w))) [
        | inr (x, w3, c) ↦ ground (arith, eq, begins, q, c)
        | inl ((v, db), w3, c) ↦
            let adds = append_game_events-adds rows w.base db v (ground (arith, c)) in
            (
              rows,
              ground (arith, q),
              ground (arith, eq, begins, q, c, adds),
              ground (arith, eq, begins, q, c, adds),
            )
      ]
    ]
  ]

  -- An event that is appended is the last row of the log, and nothing else changes.
  pub append_event-adds :
      (h : Handle) (e : GameEvent) (w w2 : W env) (u : Unit {0})
      → append_event env h e w ≡ (done u, w2)
      → (row : EventRow env.Bytes) × (event_to_params env e ≡ done row)
        × (w2.view ≡ record w.view { events = w.view.events ++ row ∷ [] })
  unfolding append_event
  append_event-adds h e w w2 u eq =
      let wrapped = or_concurrent "insert game_event" in
      let (row, w1, e1, e2) =
        >>=-eq-done (lift (event_to_params env e))
          (λ row. or_fail wrapped (write env h (append_game_event row))) w w2 eq in
      let ran =
        write-done env h (append_game_event row) w1 w2 u
          (or_fail-eq-done wrapped (write env h (append_game_event row)) w1 w2 u e2) in
      (
        row,
        ground (arith, e1),
        append_game_event-adds row w1.view w2.view u ran ∙ ground (arith, e1),
      )

  -- A bulk append that fails changes no row.
  pub append_events-failed :
      (es : List GameEvent) (w w2 : W env) (e : Err)
      → append_events env es w ≡ (failed e, w2)
      → (w2.view ≡ w.view) × (w2.base ≡ w.base)
  unfolding append_events
  append_events-failed es w w2 e eq = elim (Option-cases (env.fault w.tick)) [
    | inr (x, f) ↦ ground (arith, eq, f)
    | inl begins ↦ elim (Outcome-cases (params_of env es)) [
      | inr (x, q) ↦ ground (arith, eq, begins, q)
      | inl (rows, q) ↦ elim (Run-cases (copy_rows env rows (next env w))) [
        | inr (x, w3, c) ↦ ground (arith, eq, begins, q, c)
        | inl ((v, db), w3, c) ↦ ground (arith, eq, begins, q, c)
      ]
    ]
  ]
