-- ===== src/Tests/Betting.antt =====
-- Commands and their events, at the table of the examples.
use pace_poker.Prelude.{
  ◌<◌, ◌≤◌, Int64, String, List, true, false, some, [], ◌∷◌, ◌≡◌, refl, ◌⊎◌, inl, add64, lt64, h64,
  arith, ◌<>◌, show64, eq_iff,
}
use pace_poker.Proto.{PlayerState, HandState, GameEvent, Event, bare, fold, check, call}
use pace_poker.Players.{get}
use pace_poker.Rejection.{rejected, pass, RejectionReason, cannot_check}
use pace_poker.Apply.{apply, apply_all}
use pace_poker.Commands.{command_events}
use pace_poker.Validate.{validate}
use pace_poker.Validate.Require.{
  call_amount, require_active_game, require_hand_in_progress, require_seated, require_can_act,
  require_actors_turn,
}
use pace_poker.Validate.Actions.{require_action, validate_check, validate_call}
use pace_poker.Chips.Account.{chips, flow}
use pace_poker.Chips.Reducer.{apply-flow, apply_all-flow, flow_all}
use pace_poker.Chips.Play.{command_events-chips}
use pace_poker.Legal.Action.{MayAct, validate-MayAct}
use pace_poker.Legal.Covered.{accepted_action_covered}
use pace_poker.Legal.Timeout.{DoesFor, timeout_action-DoesFor}
use pace_poker.Rounds.Version.{apply_all-version}
use pace_poker.Cards.Dealer.{FixedDealer, fixed_dealer, ok, err}
use pace_poker.Advance.{run_advance, handle_command}
use pace_poker.Rounds.Refused.{renumbered, rejection_of, IsOwnPlay, handle_command-refused}
use pace_poker.Tests.{alice, flop_hand, table, command}

calls : GameEvent
calls = bare (Event.player_called "alice" 10)

apply-flow_example :
    chips (apply table calls) ≡ add64 (chips table) (flow table (Event.player_called "alice" 10))
unfolding calls
apply-flow_example = apply-flow table calls

apply_all-flow_example :
    chips (apply_all table (calls ∷ calls ∷ []))
    ≡ add64 (chips table) (flow_all table (calls ∷ calls ∷ []))
apply_all-flow_example = apply_all-flow table (calls ∷ calls ∷ [])

command_events-chips_example :
    chips (apply_all table (command_events table (command (call 10)) "alice")) ≡ chips table
command_events-chips_example = command_events-chips table (command (call 10)) "alice"

call_passes : validate table (call 10) "alice" ≡ pass
unfolding validate validate_call require_action require_active_game require_hand_in_progress
    require_seated require_can_act require_actors_turn call_amount
call_passes = refl

validate-MayAct_example : (h : HandState) × (p : PlayerState) × MayAct table "alice" h p
validate-MayAct_example = validate-MayAct table (call 10) "alice" tt call_passes

accepted_action_covered_example :
    (q : PlayerState) × (get "alice"
        (apply_all table (command_events table (command (call 10)) "alice")).players
      ≡ some q)
    × (q.stack ≤ 100)
    × (q.stack < h64)
accepted_action_covered_example =
    accepted_action_covered table (command (call 10)) "alice" flop_hand alice tt (ground arith)
      call_passes refl refl
      (record { stack_small = omega arith; bet_below = omega arith; highest_small = omega arith })

abbrev nothing_to_check : RejectionReason
nothing_to_check = record {
  code = cannot_check;
  reason = "there is a bet of " <> show64 10 <> " to call";
}

check_refused : validate table check "alice" ≡ rejected nothing_to_check
unfolding validate validate_check require_action require_active_game require_hand_in_progress
    require_seated require_can_act require_actors_turn call_amount
check_refused = refl

abbrev no_ids : Int64 → String
no_ids n = "hand"

abbrev deck : FixedDealer
deck = record { cards = []; pos = 0 }

-- Alice's deadline has passed.
handle_command-refused_example :
    (apply_all table (rejection_of nothing_to_check table (command check) ∷ []) ≡ renumbered table)
    × (((more : List GameEvent) × (d2 : FixedDealer) × (handle_command fixed_dealer no_ids table
              (command check)
              "alice"
              (some 1000)
              deck
            ≡ (ok (rejection_of nothing_to_check table (command check) ∷ more), d2))
          × IsOwnPlay fixed_dealer no_ids
              (some 1000)
              (renumbered table)
              deck
              more
              (apply_all table (rejection_of nothing_to_check table (command check) ∷ more))
              d2)
        ⊎ ((x : String) × (d2 : FixedDealer) × (run_advance fixed_dealer no_ids
                (renumbered table)
                (some 1000)
                deck
              ≡ (err x, d2))
            × (handle_command fixed_dealer no_ids table (command check) "alice" (some 1000) deck
                ≡ (err ("advance" <> ": " <> x), d2))))
handle_command-refused_example =
    handle_command-refused fixed_dealer no_ids (some 1000) table (command check) "alice"
      nothing_to_check deck check_refused

alice_may : MayAct table "alice" flop_hand alice
alice_may = record {
  open_for_play = inl refl;
  in_hand = refl;
  playable = (ground arith, ground arith);
  seated = refl;
  sits_in = refl;
  not_folded = refl;
  not_all_in = refl;
  on_turn = refl;
}

timeout_action-DoesFor_example :
    ((lt64 0 10 ≡ true) × DoesFor "fold" table flop_hand (command fold) "alice" fold)
    ⊎ ((lt64 0 10 ≡ false) × DoesFor "check" table flop_hand (command fold) "alice" check)
timeout_action-DoesFor_example =
    timeout_action-DoesFor table (command fold) "alice" flop_hand alice alice_may
      (ground (arith, eq_iff "alice" ""))

apply_all-version_example : (apply_all table (calls ∷ calls ∷ [])).version ≡ 9
unfolding calls
apply_all-version_example =
    apply_all-version table (calls ∷ calls ∷ []) (omega arith) (refl, (refl, tt))
