-- ===== src/Proto/Commands.antt =====
-- proto/poker/v1/commands.proto: a player's command. `payload_unset` is a command with no payload.
use pace_poker.Prelude.{Bool, ℕ, String, Int64}

pub data Payload : Type 0 where
  payload_unset fold check : Payload
  call bet raise : Int64 → Payload
  all_in sit_out sit_in show_cards muck_cards use_time_bank : Payload
  chat_message emote : String → Payload
  run_it_twice : Bool → Payload
  resume : ℕ → Payload

pub record PlayerCommand : Type 0 where
  pub command_id : String
  pub game_id : String
  pub client_state_version : Int64
  pub payload : Payload
