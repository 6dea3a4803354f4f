-- ===== src/Rounds/Version.antt =====
-- The version of a table's state (internal/engine/apply.go).
use pace_poker.Prelude.{
  ℕ, ◌+◌, ◌<◌, ◌%◌, Option, List, [], ◌∷◌, length, ◌≡◌, ◌∙◌, arith, add64, m64,
}
use pace_poker.Proto.{GameState, GameEvent, Event}
use pace_poker.Apply.{apply, apply_all, apply_event, next_version}
use pace_poker.Apply.Seats
use pace_poker.Apply.Street
use pace_poker.Apply.Betting
use pace_poker.Apply.Pots

apply_event-version :
    (e : Event) (at : Option ℕ) (s : GameState) → (apply_event e at s).version ≡ s.version
unfolding apply_event Seats.apply_table_created Seats.apply_table_resumed Seats.apply_player_joined
    Seats.apply_player_left Seats.on_player Street.apply_hand_started Street.reset_street_state
    Street.apply_flop_dealt Street.apply_turn_dealt Street.apply_river_dealt
    Street.apply_second_board_dealt Street.apply_betting_round_ended Betting.apply_blind_posted
    Betting.apply_ante_posted Betting.apply_straddle_posted Betting.apply_player_folded
    Betting.apply_player_checked Betting.apply_player_called Betting.apply_player_bet
    Betting.apply_player_raised Betting.apply_player_all_in Pots.apply_side_pot_created
    Pots.apply_showdown Pots.apply_pot_awarded Pots.apply_rake_taken Pots.apply_hand_ended
apply_event-version e at s = ground arith

-- Events without a version of their own, as the engine makes them.
abbrev pub AreUnnumbered : List GameEvent → Type 0
AreUnnumbered [] = Unit
AreUnnumbered (e ∷ es) = (e.state_version ≡ 0) × AreUnnumbered es

apply-version :
    (s : GameState) (e : GameEvent) → e.state_version ≡ 0 → (apply s e).version ≡ add64 s.version 1
unfolding apply
apply-version s e z =
    apply_event-version e.event e.occurred_at (next_version e s) ∙ ground (arith, z)

-- Replaying events that carry no version of their own counts them: the version goes up by one for
-- each event, whatever the events are, modulo 2 ^ 64. The version before is an int64.
pub apply_all-version :
    (s : GameState) (es : List GameEvent)
    → s.version < m64
    → AreUnnumbered es
    → (apply_all s es).version ≡ (s.version + length es) % m64
unfolding apply_all
apply_all-version s [] lt u = omega arith
apply_all-version s (e ∷ es) lt (z, u) =
    let step = apply-version s e z in
    omega (arith, step, apply_all-version (apply s e) es (omega (arith, step)) u)
