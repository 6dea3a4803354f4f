-- ===== src/Chips/Play.antt =====
-- What the engine itself emits keeps the chips: the events of a command, and the events that end a
-- hand without a showdown (internal/engine/handler.go and advance.go).
use pace_poker.Prelude.{◌<◌, Int64, String, ◌≡◌, refl, arith, m64}
use pace_poker.Proto.{
  GameState, Payload, PlayerCommand, payload_unset, call, raise, all_in, show_cards, resume,
}
use pace_poker.Chips.Account.{chips, flow}
use pace_poker.Chips.Reducer.{apply_all-flow, flow_all}
use pace_poker.Rejection.{Checked, passed, rejected, to_command_rejected_event}
use pace_poker.Validate.{validate}
use pace_poker.Commands.{command_events, events_of}
use pace_poker.Commands.Build.{
  build_command_events, build_payload, build_call, build_raise, build_all_in, build_show_cards,
}
use pace_poker.Apply.{apply_all}

chips-lt : (s : GameState) → chips s < m64
unfolding chips
chips-lt s = omega arith

call-flow : (s : GameState) (actor : String) → flow_all s (build_call s actor) ≡ 0
unfolding build_call flow_all flow
call-flow s actor = ground arith

raise-flow : (s : GameState) (actor : String) (to : Int64) → flow_all s (build_raise s actor to) ≡ 0
unfolding build_raise flow_all flow
raise-flow s actor to = ground arith

show_cards-flow : (s : GameState) (actor : String) → flow_all s (build_show_cards s actor) ≡ 0
unfolding build_show_cards flow_all flow
show_cards-flow s actor = ground arith

all_in-flow : (s : GameState) (actor : String) → flow_all s (build_all_in s actor) ≡ 0
unfolding build_all_in flow_all flow
all_in-flow s actor = ground arith

payload-flow :
    (s : GameState) (cmd : PlayerCommand) (actor : String) (p : Payload)
    → flow_all s (build_payload s cmd actor p) ≡ 0
unfolding flow_all flow
payload-flow s cmd actor (call x) = call-flow s actor
payload-flow s cmd actor (raise to) = raise-flow s actor to
payload-flow s cmd actor all_in = all_in-flow s actor
payload-flow s cmd actor show_cards = show_cards-flow s actor
payload-flow s cmd actor payload_unset = unfold to_command_rejected_event in refl
payload-flow s cmd actor (resume from) = unfold to_command_rejected_event in refl
payload-flow s cmd actor _ = refl

events_of-flow :
    (s : GameState) (cmd : PlayerCommand) (actor : String) (c : Checked (Unit {0}))
    → flow_all s (events_of c s cmd actor) ≡ 0
events_of-flow s cmd actor (passed ok) =
    unfold build_command_events in payload-flow s cmd actor cmd.payload
events_of-flow s cmd actor (rejected r) = unfold flow_all flow to_command_rejected_event in refl

-- No command of a player creates or destroys chips: the chips on the table are the same after the
-- events of any command, accepted or rejected, in any state.
pub command_events-chips :
    (s : GameState) (cmd : PlayerCommand) (actor : String)
    → chips (apply_all s (command_events s cmd actor)) ≡ chips s
unfolding command_events
command_events-chips s cmd actor = omega (
  arith,
  apply_all-flow s (events_of (validate s cmd.payload actor) s cmd actor),
  events_of-flow s cmd actor (validate s cmd.payload actor),
  chips-lt s,
)
