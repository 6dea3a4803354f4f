-- ===== src/Session/Found.antt =====
-- The look-up of a command before and after the session has stored its events (`lookupByCommandID` of
-- internal/engine/session.go).
use pace_poker.Prelude.{
  ℕ, ◌+◌, ◌<◌, ◌≤◌, String, true, none, some, List, [], ◌∷◌, ◌++◌, length, keep, sort_by, ◌≡◌, ◌≢◌,
  ap, ◌∙◌, ◌⊎◌, inl, inr, arith, h64, eq_iff, Option-cases,
}
use pace_poker.Proto.{GameEvent}
use pace_poker.Storage.Errors.{Err}
use pace_poker.Storage.Env.{Env, Uuid, Codec}
use pace_poker.Storage.Db.{EventRow}
use pace_poker.Storage.Io.{done, failed, W, next, Outcome-cases}
use pace_poker.Storage.EventQueries.{
  of_game, earlier_event, caused_by, log_of, latest_sequence, find_event_by_command_id,
}
use pace_poker.Storage.Events.{event_to_params, params_of, find_by_command}
use pace_poker.Storage.Lookup.{IsLeast, keep-sort_none, keep-sort_first}
use pace_poker.Lobby.Replay.{Holds}
use pace_poker.Session.Stamping.{lookup_by_command_id}
use pace_poker.Session.Stored.{AreStamped, Stores, keep-++}

module _ (env : Env) (game cmd : Uuid) (codec : Codec env game) where
  -- No row of the table's log is of the command.
  abbrev pub IsUnseen : W env → Type 0
  IsUnseen w = keep (caused_by cmd) (keep (of_game game) w.view.events) ≡ []

  pub lookup-unseen :
      (text : String) (w : W env)
      → env.parse_uuid text ≡ some cmd
      → IsUnseen w
      → ((lookup_by_command_id env game text w).0 ≡ done [])
        ⊎ ((e : Err) × ((lookup_by_command_id env game text w).0 ≡ failed e))
  unfolding lookup_by_command_id find_by_command find_event_by_command_id
  lookup-unseen text w named unseen =
      let log : keep (caused_by cmd) (log_of game w.view) ≡ [] =
        keep-sort_none earlier_event (caused_by cmd) (keep (of_game game) w.view.events) unseen in
      elim (Outcome-cases (lookup_by_command_id env game text w).0) [
        | inr (e, q) ↦ inr (e, q)
        | inl ([], q) ↦ inl q
        | inl (e ∷ es, q) ↦ ground (arith, named, log, q)
      ]

  -- Rows with numbers above that of a row are not before it in the log.
  stamped-IsLeast :
      (r : EventRow env.Bytes) (k : ℕ) (rows : List (EventRow env.Bytes)) (es : List GameEvent)
      → r.sequence ≤ k
      → k + length es < h64
      → Holds env rows es
      → AreStamped env game codec k es
      → IsLeast earlier_event r rows
  stamped-IsLeast r k [] [] le lt h n = tt
  stamped-IsLeast r k [] (e ∷ es) le lt h n = elim h [ ]
  stamped-IsLeast r k (x ∷ rows) [] le lt h n = elim h [ ]
  stamped-IsLeast r k (x ∷ rows) (e ∷ es) le lt (u, v, h) (m, n) = (
    ground (arith, le, lt, v, m),
    stamped-IsLeast r (k + 1) rows es (omega (arith, le)) (omega (arith, lt)) h n,
  )

  -- The row of an event is of the command that the event names.
  params-caused :
      (e : GameEvent) (r : EventRow env.Bytes)
      → e.caused_by_command_id ≢ ""
      → env.parse_uuid e.caused_by_command_id ≡ some cmd
      → event_to_params env e ≡ done r
      → caused_by cmd r ≡ true
  unfolding event_to_params
  params-caused e r n named h = elim (Option-cases (env.marshal_event e)) [
    | inl x ↦ ground (arith, h, x)
    | inr (b, x) ↦ ground (arith, h, x, n, named, eq_iff e.caused_by_command_id "")
  ]

  -- After the events are stored, the first of them is the first row of the command in the log.
  stored-first :
      (e : GameEvent) (es : List GameEvent) (w w2 : W env)
      → e.caused_by_command_id ≢ ""
      → env.parse_uuid e.caused_by_command_id ≡ some cmd
      → IsUnseen w
      → latest_sequence game w.view + length (e ∷ es) < h64
      → Stores env game codec w (e ∷ es) w2
      → (r : EventRow env.Bytes) × (more : List (EventRow env.Bytes)) × (env.unmarshal_event
            r.envelope
          ≡ some e)
        × (keep (caused_by cmd) (log_of game w2.view) ≡ r ∷ more)
  unfolding params_of
  stored-first e es w w2 n named unseen lt ([], holds, _, _, _, _, _) = elim holds [ ]
  stored-first e es w w2 n named unseen lt (r ∷ rows, (u, v, h), mine, _, grown, ok, (m, ns)) =
      let k = latest_sequence game w.view in
      let fits : event_to_params env e ≡ done r = elim (Outcome-cases (event_to_params env e)) [
        | inr (x, q) ↦ ground (arith, ok, q)
        | inl (r2, q) ↦ elim (Outcome-cases (params_of env es)) [
          | inr (x, p) ↦ ground (arith, ok, q, p)
          | inl (rs, p) ↦ ground (arith, ok, q, p)
        ]
      ] in
      let least =
        stamped-IsLeast r (k + 1) rows es (omega (arith, v, m, lt)) (omega (arith, lt)) h ns in
      let log : keep (of_game game) w2.view.events ≡ keep (of_game game) w.view.events ++ r ∷ rows =
        ap (λ d. keep (of_game game) d.events) grown
        ∙ keep-++ env game w.view.events (r ∷ rows)
        ∙ ap (λ l. keep (of_game game) w.view.events ++ l) mine in
      (
        r,
        keep (caused_by cmd) (sort_by earlier_event rows),
        u,
        ap (λ l. keep (caused_by cmd) (sort_by earlier_event l)) log
            ∙ keep-sort_first earlier_event (caused_by cmd) r (keep (of_game game) w.view.events)
                rows unseen (params-caused e r n named fits) least,
      )

  pub lookup-stored :
      (e : GameEvent) (es : List GameEvent) (w w2 : W env)
      → e.caused_by_command_id ≢ ""
      → env.parse_uuid e.caused_by_command_id ≡ some cmd
      → IsUnseen w
      → latest_sequence game w.view + length (e ∷ es) < h64
      → env.fault w2.tick ≡ none
      → Stores env game codec w (e ∷ es) w2
      → lookup_by_command_id env game e.caused_by_command_id w2 ≡ (done (e ∷ []), next env w2)
  unfolding lookup_by_command_id find_by_command find_event_by_command_id
  lookup-stored e es w w2 n named unseen lt calm stored =
      let (r, more, read, log) = stored-first e es w w2 n named unseen lt stored in
      ground (arith, calm, named, read, log)
