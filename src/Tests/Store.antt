-- ===== src/Tests/Store.antt =====
-- A small database for the examples: one table with its snapshot, one user with a balance, and a wire
-- format that keeps the messages as they are.
use pace_poker.Prelude.{
  ℕ, String, Option, none, some, [], ◌∷◌, ◌≡◌, refl, arith, ◌==◌, str_eq, if◌then◌else◌,
}
use pace_poker.Proto.{GameState, GameEvent, Event, CashGameConfig}
use pace_poker.Storage.Errors.{Err}
use pace_poker.Storage.Env.{Env, Uuid, Codec}
use pace_poker.Storage.Db.{Db, BalanceRow, SnapshotRow}
use pace_poker.Storage.Io.{Outcome, done, failed, World}

pub data Blob : Type 0 where
  event_blob : GameEvent → Blob
  inner_blob : Event → Blob
  state_blob : GameState → Blob
  config_blob : CashGameConfig → Blob

abbrev pub read_event : Blob → Option GameEvent
read_event (event_blob e) = some e
read_event _ = none

abbrev pub read_state : Blob → Option GameState
read_state (state_blob s) = some s
read_state _ = none

abbrev pub read_config : Blob → Option CashGameConfig
read_config (config_blob c) = some c
read_config _ = none

-- Table 1, user 2, commands 3 and 4.
abbrev pub id_text : Uuid → String
id_text id =
    if id == 1 then "table" else if id == 2 then "dave" else if id == 3 then "first" else "second"

abbrev pub id_of : String → Option Uuid
id_of t =
    if str_eq t "table"
    then some 1
    else if str_eq t "dave"
    then some 2
    else if str_eq t "first"
    then some 3
    else if str_eq t "second"
    then some 4
    else none

abbrev pub env_with : (ℕ → Option Err) → Env
env_with fault = record {
  Bytes = Blob;
  marshal_event = λ e. some (event_blob e);
  unmarshal_event = read_event;
  marshal_inner = λ e. some (inner_blob e);
  message_name = λ e. "event";
  marshal_state = λ s. some (state_blob s);
  unmarshal_state = read_state;
  marshal_config = λ c. some (config_blob c);
  unmarshal_config = read_config;
  parse_uuid = id_of;
  uuid_text = id_text;
  clock = λ t. t;
  fresh = λ t. t;
  fault = fault;
}

-- No call fails.
abbrev pub calm : Env
calm = env_with (λ t. none)

abbrev pub balance : BalanceRow
balance = record {
  user_id = 2;
  chip_balance = 500;
  total_deposited = 500;
  total_reports = 1;
  last_deposit_at = none;
  last_activity_at = 0;
}

abbrev pub snapshot_of : GameState → SnapshotRow Blob
snapshot_of s = record {
  game_id = 1;
  sequence = s.version;
  hand_number = 0;
  state_proto = state_blob s;
}

abbrev pub db_of : GameState → Db Blob
db_of s = record {
  configs = [];
  events = [];
  snapshots = snapshot_of s ∷ [];
  users = [];
  balances = balance ∷ [];
  daily = [];
  reports = [];
}

abbrev pub world_of : Db Blob → World Blob
world_of db = record { tick = 0; view = db; base = db }

abbrev pub value_or : {A : Type 0} → A → Outcome A → A
value_or a (done b) = b
value_or a (failed e) = a

abbrev pub error_or : {A : Type 0} → Err → Outcome A → Err
error_or e (done b) = e
error_or e (failed x) = x

reads_back : (e : GameEvent) (b : Blob) → some (event_blob e) ≡ some b → read_event b ≡ some e
reads_back e b h = ground (arith, h)

pub codec_table : Codec calm 1
codec_table = (reads_back, refl)

pub codec_first : Codec calm 3
codec_first = (reads_back, refl)
