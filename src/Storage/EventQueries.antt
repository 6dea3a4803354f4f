-- ===== src/Storage/EventQueries.antt =====
-- The queries of internal/store/pgstore/game_events.sql.go, game_snapshots.sql.go, copyfrom.go and
-- game_configs.sql.go, on the rows. BIGINT columns compare as signed 64-bit integers.
use pace_poker.Prelude.{
  ℕ, Int64, Bool, true, false, ◌&&◌, ◌||◌, not, none, some, List, [], ◌∷◌, ◌++◌, keep, take,
  sort_by, map, lt64, le64, ◌==◌, if◌then◌else◌,
}
use pace_poker.Storage.Errors.{sentinel, no_rows, unique_violation, check_violation}
use pace_poker.Storage.Env.{Uuid}
use pace_poker.Storage.Db.{Db, ConfigRow, EventRow, SnapshotRow}
use pace_poker.Storage.Io.{Outcome, done, failed}

-- The first row, or `pgx.ErrNoRows`.
abbrev pub first_row : {A : Type 0} → List A → Outcome A
first_row [] = failed (sentinel no_rows)
first_row (x ∷ xs) = done x

module _ {B : Type 0} where
  -- A row of this game.
  abbrev pub of_game : Uuid → EventRow B → Bool
  of_game game r = r.game_id == game

  abbrev pub earlier_event : EventRow B → EventRow B → Bool
  earlier_event a b = lt64 a.sequence b.sequence

  -- `WHERE game_id = $1 ORDER BY sequence ASC`.
  abbrev pub log_of : Uuid → Db B → List (EventRow B)
  log_of game db = sort_by earlier_event (keep (of_game game) db.events)

  -- The row that would violate UNIQUE (game_id, sequence).
  abbrev pub sequence_taken : List (EventRow B) → EventRow B → Bool
  sequence_taken [] r = false
  sequence_taken (x ∷ xs) r =
      (x.game_id == r.game_id && x.sequence == r.sequence) || sequence_taken xs r

  -- `AppendGameEvent`, with the table's constraints.
  unfoldable pub append_game_event : EventRow B → Db B → Outcome (Unit {0} × Db B)
  append_game_event r db =
      if le64 r.sequence 0
      then failed (sentinel check_violation)
      else if sequence_taken db.events r
      then failed (sentinel unique_violation)
      else done (tt, record db { events = db.events ++ r ∷ [] })

  -- `AppendGameEvents`: COPY FROM, row after row; a violation refuses all of them.
  unfoldable pub append_game_events : List (EventRow B) → Db B → Outcome (Unit {0} × Db B)
  append_game_events [] db = done (tt, db)
  append_game_events (r ∷ rs) db = elim (append_game_event r db) [
    | failed e ↦ failed e
    | done (u, db') ↦ append_game_events rs db'
  ]

  -- `GetEventsForGame`.
  unfoldable pub get_events_for_game : Uuid → Int64 → ℕ → Db B → List (EventRow B)
  get_events_for_game game from limit db =
      take limit (keep (λ r. le64 from r.sequence) (log_of game db))

  -- `COALESCE(MAX(sequence), 0)`.
  abbrev pub max_sequence : Int64 → List (EventRow B) → Int64
  max_sequence best [] = best
  max_sequence best (r ∷ rs) = max_sequence (if lt64 best r.sequence then r.sequence else best) rs

  abbrev pub max_or_zero : List (EventRow B) → Int64
  max_or_zero [] = 0
  max_or_zero (r ∷ rs) = max_sequence r.sequence rs

  -- `GetLatestSequence`.
  unfoldable pub latest_sequence : Uuid → Db B → Int64
  latest_sequence game db = max_or_zero (keep (of_game game) db.events)

  abbrev pub caused_by : Uuid → EventRow B → Bool
  caused_by cmd r = elim r.caused_by_command_id [ none ↦ false | some c ↦ c == cmd ]

  -- `FindEventByCommandID`.
  unfoldable pub find_event_by_command_id : Uuid → Uuid → Db B → Outcome (EventRow B)
  find_event_by_command_id cmd game db = first_row (keep (caused_by cmd) (log_of game db))

  -- `FindEventByCommandIDGlobal`.
  unfoldable pub find_event_by_command_id_global : Uuid → Db B → Outcome (EventRow B)
  find_event_by_command_id_global cmd db =
      first_row (sort_by earlier_event (keep (caused_by cmd) db.events))

  abbrev pub snapshot_taken : List (SnapshotRow B) → SnapshotRow B → Bool
  snapshot_taken [] r = false
  snapshot_taken (x ∷ xs) r =
      (x.game_id == r.game_id && x.sequence == r.sequence) || snapshot_taken xs r

  -- `CreateSnapshot`.
  unfoldable pub create_snapshot_row : SnapshotRow B → Db B → Outcome (Unit {0} × Db B)
  create_snapshot_row r db =
      if snapshot_taken db.snapshots r
      then failed (sentinel unique_violation)
      else done (tt, record db { snapshots = db.snapshots ++ r ∷ [] })

  -- `WHERE game_id = $1 ORDER BY sequence DESC`.
  abbrev pub snapshots_of : Uuid → Db B → List (SnapshotRow B)
  snapshots_of game db =
      sort_by (λ a b. lt64 b.sequence a.sequence) (keep (λ r. r.game_id == game) db.snapshots)

  -- `GetLatestSnapshot`.
  unfoldable pub latest_snapshot : Uuid → Db B → Outcome (SnapshotRow B)
  latest_snapshot game db = first_row (snapshots_of game db)

  -- `GetSnapshotAtOrBefore`.
  unfoldable pub snapshot_at_or_before : Uuid → Int64 → Db B → Outcome (SnapshotRow B)
  snapshot_at_or_before game seq db =
      first_row (keep (λ r. le64 r.sequence seq) (snapshots_of game db))

  -- `CreateGameConfig`; the id is the column's default.
  unfoldable pub create_game_config_row : Uuid → B → Db B → Outcome (ConfigRow B × Db B)
  create_game_config_row id bytes db =
      let r : ConfigRow B = record { game_id = id; config_proto = bytes; deleted = false } in
      done (r, record db { configs = db.configs ++ r ∷ [] })

  abbrev pub live_config : Uuid → ConfigRow B → Bool
  live_config game r = r.game_id == game && not r.deleted

  -- `GetGameConfig`.
  unfoldable pub get_game_config_row : Uuid → Db B → Outcome (ConfigRow B)
  get_game_config_row game db = first_row (keep (live_config game) db.configs)

  -- `SoftDeleteGameConfig`.
  unfoldable pub soft_delete_rows : Uuid → Db B → Outcome (Unit {0} × Db B)
  soft_delete_rows game db = done (
    tt,
    record db {
      configs = map (λ r. if live_config game r then record r { deleted = true } else r) db.configs;
    },
  )
