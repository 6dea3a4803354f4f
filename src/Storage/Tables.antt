-- ===== src/Storage/Tables.antt =====
-- Table configs and snapshots of internal/store/store.go, and the creation of a table.
use pace_poker.Prelude.{ℕ, Int64, String, none, some, [], ◌-◌, m32, ◌==◌, if◌then◌else◌}
use pace_poker.Proto.{GameState, GameEvent, CashGameConfig, table_created, waiting}
use pace_poker.Storage.Errors.{message, wrap}
use pace_poker.Storage.Env.{Env, Uuid}
use pace_poker.Storage.Db.{SnapshotRow}
use pace_poker.Storage.Io.{
  Outcome, done, and_then, or_error, Io, ◌>>=◌, ◌>>◌, pure, or_fail, lift, Handle, read, write, now,
  new_uuid, with_tx,
}
use pace_poker.Storage.EventQueries.{
  create_game_config_row, get_game_config_row, soft_delete_rows, create_snapshot_row,
  latest_snapshot, snapshot_at_or_before,
}
use pace_poker.Storage.Events.{or_not_found, append_event}

module _ (env : Env) where
  -- `CreateGameConfig`; the new id is the column's default.
  unfoldable pub create_game_config : Handle → CashGameConfig → Io env.Bytes Uuid
  create_game_config h cfg = do
    bytes ← lift (
        or_error (wrap "marshal config" (message "proto: cannot marshal")) (env.marshal_config cfg))
    id ← new_uuid env
    row ← or_fail (wrap "insert game_config") (write env h (create_game_config_row id bytes))
    pure row.game_id

  -- `GetGameConfig`.
  unfoldable pub get_game_config : Uuid → Io env.Bytes CashGameConfig
  get_game_config game = do
    row ← or_fail (or_not_found "get game_config") (read env (get_game_config_row game))
    lift (
        or_error (wrap "unmarshal config" (message "proto: cannot parse"))
          (env.unmarshal_config row.config_proto))

  -- `SoftDeleteGameConfig`.
  unfoldable pub soft_delete_game_config : Handle → Uuid → Io env.Bytes (Unit {0})
  soft_delete_game_config h game =
      or_fail (wrap "soft-delete game_config") (write env h (soft_delete_rows game))

  -- `CreateSnapshot`.
  unfoldable pub create_snapshot : Handle → GameState → Int64 → Io env.Bytes (Unit {0})
  create_snapshot h s hand_number = do
    game ←
        lift (or_error (wrap "parse game_id" (message "invalid UUID")) (env.parse_uuid s.game_id))
    bytes ←
        lift
          (or_error (wrap "marshal state" (message "proto: cannot marshal")) (env.marshal_state s))
    let row : SnapshotRow env.Bytes = record {
      game_id = game;
      sequence = s.version;
      hand_number = hand_number;
      state_proto = bytes;
    }
    or_fail (wrap "insert snapshot") (write env h (create_snapshot_row row))

  -- `unmarshalSnapshot`: the state and the snapshot's sequence.
  unfoldable pub unmarshal_snapshot : SnapshotRow env.Bytes → Outcome (GameState × ℕ)
  unmarshal_snapshot row =
      and_then
        (or_error (wrap "unmarshal snapshot" (message "proto: cannot parse"))
          (env.unmarshal_state row.state_proto))
        (λ s. done (s, row.sequence))

  -- `GetLatestSnapshot`.
  unfoldable pub get_latest_snapshot : Uuid → Io env.Bytes (GameState × ℕ)
  get_latest_snapshot game = do
    row ← or_fail (or_not_found "get latest snapshot") (read env (latest_snapshot game))
    lift (unmarshal_snapshot row)

  -- `GetSnapshotAtOrBefore`.
  unfoldable pub get_snapshot_at_or_before : Uuid → ℕ → Io env.Bytes (GameState × ℕ)
  get_snapshot_at_or_before game seq = do
    row ←
        or_fail (or_not_found "get snapshot at/before") (read env (snapshot_at_or_before game seq))
    lift (unmarshal_snapshot row)

  -- The text of a command's id, empty for `uuid.Nil`.
  abbrev pub command_text : Uuid → String
  command_text id = if id == 0 then "" else env.uuid_text id

  -- The state of a table that is new.
  unfoldable pub new_table : Uuid → CashGameConfig → GameState
  new_table id cfg = record {
    game_id = env.uuid_text id;
    status = waiting;
    version = 1;
    config = some cfg;
    dealer_seat = m32 - 1;
    hand_number = 0;
    current_hand = none;
    players = [];
    player_user_ids = [];
    reserved_seats = [];
    waiting_list = [];
  }

  unfoldable pub created_event : Uuid → Uuid → CashGameConfig → ℕ → GameEvent
  created_event id cmd cfg at = record {
    game_id = env.uuid_text id;
    sequence = 1;
    occurred_at = some at;
    caused_by_command_id = command_text cmd;
    state_version = 1;
    event = table_created (some cfg);
  }

  -- `CreateTable`: config, event 1 and snapshot 1 in one transaction.
  unfoldable pub create_table : CashGameConfig → Uuid → Io env.Bytes GameState
  create_table cfg cmd = with_tx env λ h. do
    id ← create_game_config h cfg
    at ← now env
    append_event env h (created_event id cmd cfg at)
    create_snapshot h (new_table id cfg) 0
    pure (new_table id cfg)
