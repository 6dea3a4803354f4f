-- ===== src/Session/Stamping.antt =====
-- `stampEvents`, `lookupByCommandID` and the tagging of events in internal/engine/session.go.
use pace_poker.Prelude.{
  ℕ, ◌+◌, ◌%◌, String, Option, none, some, List, [], ◌∷◌, map, m64, str_eq, if◌then◌else◌,
}
use pace_poker.Proto.{GameEvent}
use pace_poker.Storage.Errors.{wrap, is_err, not_found}
use pace_poker.Storage.Env.{Env, Uuid}
use pace_poker.Storage.Io.{
  Outcome, done, failed, Io, ◌>>=◌, ◌>>◌, pure, fail, or_fail, attempt, now,
}
use pace_poker.Storage.Events.{get_latest_sequence, append_events, find_by_command}

-- `if evt.OccurredAt == nil { evt.OccurredAt = now }`.
abbrev pub or_now : Option ℕ → ℕ → Option ℕ
or_now none t = some t
or_now (some x) t = some x

-- The loop of `stampEvents`, with the sequence of the event before.
unfoldable pub stamp_from : String → ℕ → ℕ → List GameEvent → List GameEvent
stamp_from game t latest [] = []
stamp_from game t latest (e ∷ es) =
    record e {
      game_id = game;
      sequence = (latest + 1) % m64;
      state_version = (latest + 1) % m64;
      occurred_at = or_now e.occurred_at t;
    }
    ∷ stamp_from game t (latest + 1) es

-- `if evt.CausedByCommandId == "" { evt.CausedByCommandId = cmdID }`.
abbrev pub tag_event : String → GameEvent → GameEvent
tag_event cmd e =
    if str_eq e.caused_by_command_id "" then record e { caused_by_command_id = cmd } else e

abbrev pub tag_events : String → List GameEvent → List GameEvent
tag_events cmd es = map (tag_event cmd) es

module _ (env : Env) where
  -- `stampEvents`.
  unfoldable pub stamp_events : Uuid → List GameEvent → Io env.Bytes (List GameEvent)
  stamp_events game [] = pure []
  stamp_events game (e ∷ es) = do
    latest ← or_fail (wrap "get latest sequence") (get_latest_sequence env game)
    t ← now env
    pure (stamp_from (env.uuid_text game) t latest (e ∷ es))

  -- Stamping, then `AppendEvents`: what is stored is what is returned.
  unfoldable pub persist : String → String → Uuid → List GameEvent → Io env.Bytes (List GameEvent)
  persist stamping storing game es = do
    stamped ← or_fail (wrap stamping) (stamp_events game es)
    or_fail (wrap storing) (append_events env stamped)
    pure stamped

  -- `errors.Is(err, store.ErrNotFound)` is no event, another error is one.
  abbrev pub or_unseen : Outcome GameEvent → Io env.Bytes (List GameEvent)
  or_unseen (done e) = pure (e ∷ [])
  or_unseen (failed x) = if is_err x not_found then pure [] else fail x

  -- `lookupByCommandID`; the empty list is nil.
  unfoldable pub lookup_by_command_id : Uuid → String → Io env.Bytes (List GameEvent)
  lookup_by_command_id game cmd = elim (env.parse_uuid cmd) [
    | none ↦ pure []
    | some id ↦ attempt (find_by_command env id game) >>= or_unseen
  ]
