-- ===== src/Storage/Env.antt =====
-- What the store and its clients call that is not in the repository: the wire format of protobuf,
-- UUIDs, the clock, the randomness, and the failures of the database. The n-th call to the outside
-- reads the n-th value of a sequence.
use pace_poker.Prelude.{ℕ, String, Option, some, ◌≡◌}
use pace_poker.Proto.{GameState, GameEvent, Event, CashGameConfig}
use pace_poker.Storage.Errors.{Err}

-- A UUID; `uuid.Nil` is 0.
abbrev pub Uuid : Type 0
Uuid = ℕ

pub record Env : Type 1 where
  -- `[]byte`
  pub Bytes : Type 0
  pub marshal_event : GameEvent → Option Bytes
  pub unmarshal_event : Bytes → Option GameEvent
  pub marshal_inner : Event → Option Bytes
  pub message_name : Event → String
  pub marshal_state : GameState → Option Bytes
  pub unmarshal_state : Bytes → Option GameState
  pub marshal_config : CashGameConfig → Option Bytes
  pub unmarshal_config : Bytes → Option CashGameConfig
  pub parse_uuid : String → Option Uuid
  pub uuid_text : Uuid → String
  pub clock : ℕ → ℕ
  pub fresh : ℕ → Uuid
  pub fault : ℕ → Option Err

-- The wire format gives back the event that was written, and the text of an id the id.
abbrev pub Codec : Env → Uuid → Type 0
Codec env id =
    ((e : GameEvent) (b : env.Bytes)
      → env.marshal_event e ≡ some b
      → env.unmarshal_event b ≡ some e)
    × (env.parse_uuid (env.uuid_text id) ≡ some id)
