-- ===== src/Storage/Events.antt =====
-- The event log of internal/store/store.go: what an event is stored as, and the methods that append
-- and read events.
use pace_poker.Prelude.{ℕ, String, Option, none, some, List, [], ◌∷◌, ◌++◌, str_eq, if◌then◌else◌}
use pace_poker.Proto.{GameEvent, Event, event_unset, hand_started}
use pace_poker.Storage.Errors.{
  Err, message, wrap, sentinel, is_err, concurrent_write, not_found, no_rows, unique_violation,
}
use pace_poker.Storage.Env.{Env, Uuid}
use pace_poker.Storage.Db.{Db, EventRow}
use pace_poker.Storage.Io.{
  Outcome, done, failed, and_then, or_error, Io, ◌>>=◌, ◌>>◌, or_fail, lift, Handle, W, outside,
  read, write,
}
use pace_poker.Storage.EventQueries.{
  append_game_event, append_game_events, get_events_for_game, latest_sequence,
  find_event_by_command_id, find_event_by_command_id_global,
}

-- `if errors.Is(err, pgx.ErrNoRows) { return ErrNotFound }`, and the wrapping of any other error.
abbrev pub or_not_found : String → Err → Err
or_not_found text e = if is_err e no_rows then sentinel not_found else wrap text e

-- `isUniqueViolation(err)` gives `ErrConcurrentWrite`, any other error is wrapped.
abbrev pub or_concurrent : String → Err → Err
or_concurrent text e = if is_err e unique_violation then sentinel concurrent_write else wrap text e

module _ (env : Env) where
  -- `extractHandID`.
  abbrev pub extract_hand_id : Event → Option Uuid
  extract_hand_id (hand_started h n d sb bb small big) = env.parse_uuid h
  extract_hand_id _ = none

  -- `extractInnerEvent`: the message's name and its bytes.
  abbrev pub extract_inner_event : Event → Outcome (String × env.Bytes)
  extract_inner_event event_unset = failed (message "GameEvent: 'event' oneof is not set")
  extract_inner_event e =
      and_then
        (or_error (wrap "marshal inner event" (message "proto: cannot marshal"))
          (env.marshal_inner e))
        (λ bytes. done (env.message_name e, bytes))

  -- The id of the command that caused an event, NULL for an empty text.
  abbrev pub command_column : String → Outcome (Option Uuid)
  command_column text =
      if str_eq text ""
      then done none
      else and_then
          (or_error (wrap "parse command_id" (message "invalid UUID")) (env.parse_uuid text))
          (λ id. done (some id))

  -- `evt.GetOccurredAt().AsTime()`.
  abbrev pub as_time : Option ℕ → ℕ
  as_time none = 0
  as_time (some t) = t

  -- `eventToParams`.
  unfoldable pub event_to_params : GameEvent → Outcome (EventRow env.Bytes)
  event_to_params e =
      and_then (or_error (wrap "parse game_id" (message "invalid UUID")) (env.parse_uuid e.game_id))
        (λ game. and_then (extract_inner_event e.event) (λ inner.
          and_then
            (or_error (wrap "marshal envelope" (message "proto: cannot marshal"))
              (env.marshal_event e))
            (λ bytes. and_then (command_column e.caused_by_command_id) (λ cmd. done (record {
              game_id = game;
              sequence = e.sequence;
              event_type = inner.0;
              payload = inner.1;
              envelope = bytes;
              caused_by_command_id = cmd;
              hand_id = extract_hand_id e.event;
              state_version_after = e.state_version;
              occurred_at = as_time e.occurred_at;
            })))))

  -- The loop of `AppendEvents` over `eventToParams`.
  unfoldable pub params_of : List GameEvent → Outcome (List (EventRow env.Bytes))
  params_of [] = done []
  params_of (e ∷ es) =
      and_then (event_to_params e) (λ r. and_then (params_of es) (λ rs. done (r ∷ rs)))

  -- `AppendEvent`.
  unfoldable pub append_event : Handle → GameEvent → Io env.Bytes (Unit {0})
  append_event h e = do
    row ← lift (event_to_params e)
    or_fail (or_concurrent "insert game_event") (write env h (append_game_event row))

  -- The transaction of `AppendEvents` is one of the pool's own, also for the store that `WithTx`
  -- hands out: the rows are committed at once, and a transaction that is open sees them too.
  abbrev pub commit_events :
      List (EventRow env.Bytes) → Unit {0} × Db env.Bytes → W env → Outcome (Unit {0}) × W env
  commit_events rows (u, db) w =
      (done u, record w { base = db; view = record w.view { events = w.view.events ++ rows } })

  abbrev pub copy_rows : List (EventRow env.Bytes) → Io env.Bytes (Unit {0} × Db env.Bytes)
  copy_rows rows = outside env (λ w. (append_game_events rows w.base, w))

  -- `AppendEvents`: begin, copy, commit.
  unfoldable pub append_events : List GameEvent → Io env.Bytes (Unit {0})
  append_events es = do
    or_fail (wrap "begin tx") (outside env (λ w. (done (tt {0}), w)))
    rows ← lift (params_of es)
    copied ← or_fail (or_concurrent "bulk insert game_events") (copy_rows rows)
    outside env (commit_events rows copied)

  -- `unmarshalEventRows`.
  unfoldable pub unmarshal_event_rows : List (EventRow env.Bytes) → Outcome (List GameEvent)
  unmarshal_event_rows [] = done []
  unmarshal_event_rows (r ∷ rs) =
      and_then
        (or_error (wrap "unmarshal event" (message "proto: cannot parse"))
          (env.unmarshal_event r.envelope))
        (λ e. and_then (unmarshal_event_rows rs) (λ es. done (e ∷ es)))

  -- `GetEventsForGame`.
  unfoldable pub get_events : Uuid → ℕ → ℕ → Io env.Bytes (List GameEvent)
  get_events game from limit = do
    rows ←
        or_fail (wrap "get events") (read env (λ db. done (get_events_for_game game from limit db)))
    lift (unmarshal_event_rows rows)

  -- `GetLatestSequence`.
  unfoldable pub get_latest_sequence : Uuid → Io env.Bytes ℕ
  get_latest_sequence game =
      or_fail (wrap "get latest sequence") (read env (λ db. done (latest_sequence game db)))

  abbrev pub unmarshal_row : EventRow env.Bytes → Outcome GameEvent
  unmarshal_row r =
      or_error (wrap "unmarshal event" (message "proto: cannot parse"))
        (env.unmarshal_event r.envelope)

  -- `FindEventByCommandID`.
  unfoldable pub find_by_command : Uuid → Uuid → Io env.Bytes GameEvent
  find_by_command cmd game = do
    row ←
        or_fail (or_not_found "find event by command")
          (read env (find_event_by_command_id cmd game))
    lift (unmarshal_row row)

  -- `FindEventByCommandIDGlobal`.
  unfoldable pub find_by_command_global : Uuid → Io env.Bytes GameEvent
  find_by_command_global cmd = do
    row ←
        or_fail (or_not_found "find event by command (global)")
          (read env (find_event_by_command_id_global cmd))
    lift (unmarshal_row row)
