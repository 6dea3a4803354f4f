-- ===== src/Tests/Loading.antt =====
-- The log of the examples' table: loading its state, finding a command, and a report of steps.
use pace_poker.Prelude.{
  ℕ, ◌-◌, ◌≤◌, String, none, some, [], ◌∷◌, ◌≡◌, ◌⊎◌, refl, arith, add64, sub64, mul64, eq_iff,
}
use pace_poker.Proto.{GameState, GameEvent, Event, bare}
use pace_poker.Apply.{apply_all}
use pace_poker.Storage.Errors.{is_err}
use pace_poker.Storage.Db.{EventRow}
use pace_poker.Storage.Io.{done, W, pool, in_tx}
use pace_poker.Storage.EventQueries.{latest_snapshot, log_of, append_game_event}
use pace_poker.Storage.StepQueries.{upsert_daily_row, insert_report_row, find_report_row}
use pace_poker.Storage.UserQueries.{apply_deposit_row}
use pace_poker.Storage.Events.{find_by_command, append_event, event_to_params}
use pace_poker.Storage.Balances.{balance_of}
use pace_poker.Storage.Lookup.{find_by_command-append}
use pace_poker.Storage.Steps.{
  ReportStepsInput, ReportStepsResult, classify, cap_to, record_report, insert_report,
  steps_per_chip,
}
use pace_poker.Storage.Credits.{credit-bounds, record_report-pays}
use pace_poker.Lobby.Loading.{load_state}
use pace_poker.Lobby.Pages.{last_of, from}
use pace_poker.Lobby.Replay.{load_state-replays}
use pace_poker.Tests.{table}
use pace_poker.Tests.Store.{
  Blob, event_blob, inner_blob, codec_table, codec_first, calm, db_of, snapshot_of, world_of,
  value_or,
}

abbrev pub stored_table : GameState
stored_table = record table { game_id = "table"; version = 1 }

-- Event 2 is bob's departure, event 3 carol's.
abbrev pub leaving : ℕ → String → GameEvent
leaving n who = record (bare (Event.player_left who 0 "leave_request")) {
  game_id = "table";
  sequence = n;
  state_version = n;
  caused_by_command_id = "first";
}

abbrev logged : ℕ → String → EventRow Blob
logged n who = record {
  game_id = 1;
  sequence = n;
  event_type = "event";
  payload = inner_blob (leaving n who).event;
  envelope = event_blob (leaving n who);
  caused_by_command_id = some 3;
  hand_id = none;
  state_version_after = n;
  occurred_at = 0;
}

abbrev pub two_events : W calm
two_events =
    world_of (record (db_of stored_table) { events = logged 2 "bob" ∷ logged 3 "carol" ∷ [] })

snapshot_found : latest_snapshot 1 two_events.view ≡ done (snapshot_of stored_table)
unfolding latest_snapshot
snapshot_found = refl

load_state-replays_example :
    (load_state calm 1 two_events).0
    ≡ done (
      apply_all stored_table (leaving 2 "bob" ∷ leaving 3 "carol" ∷ []),
      last_of 1 (from 2 (log_of 1 two_events.view)),
    )
load_state-replays_example =
    load_state-replays calm 1 (snapshot_of stored_table) stored_table
      (leaving 2 "bob" ∷ leaving 3 "carol" ∷ []) two_events (λ t. refl) snapshot_found refl
      (omega arith) (omega arith, omega arith, (omega arith, omega arith, tt))
      (refl, refl, (refl, refl, tt))

abbrev pub empty_log : W calm
empty_log = world_of (db_of stored_table)

abbrev appended : W calm
appended = record empty_log {
  tick = 1;
  view = record (db_of stored_table) { events = logged 2 "bob" ∷ [] };
  base = record (db_of stored_table) { events = logged 2 "bob" ∷ [] };
}

append_runs : append_event calm pool (leaving 2 "bob") empty_log ≡ (done tt, appended)
unfolding append_event event_to_params append_game_event
append_runs = refl

find_by_command-append_example : (find_by_command calm 3 1 appended).0 ≡ done (leaving 2 "bob")
find_by_command-append_example =
    find_by_command-append calm 1 3 codec_table codec_first pool (leaving 2 "bob") empty_log
      appended tt refl refl (ground (arith, eq_iff "first" "")) refl append_runs refl

-- The day has brought more than the cap, which has been lowered since.
credit-bounds_example :
    ((cap_to (sub64 3000 4000) (classify 7000 3000)).0 ≤ 3000 - 4000)
    × ((cap_to (sub64 3000 4000) (classify 7000 3000)).0 ≤ 7000 - 3000)
    × (((cap_to (sub64 3000 4000) (classify 7000 3000)).0 ≡ 7000 - 3000)
        ⊎ ((cap_to (sub64 3000 4000) (classify 7000 3000)).0 ≡ 3000 - 4000))
    × ((classify 7000 3000).0 ≡ 7000 - 3000)
credit-bounds_example =
    credit-bounds 7000 3000 3000 4000 (omega arith) (omega arith) (omega arith) (omega arith)

abbrev pub steps : ReportStepsInput
steps = record {
  user_id = 2;
  report_id = 9;
  cumulative_steps_today = 7000;
  local_date = record { year = 2026; month = 5; day = 1 };
}

abbrev pub no_report : ReportStepsResult
no_report = record {
  credited_chips = 0;
  new_balance = 0;
  daily_high_water = 0;
  reason = "";
  processed_at = 0;
}

-- Another transaction has stored this report, and credited it.
abbrev pub won : W calm
won = world_of (record (db_of stored_table) {
  reports =
      record {
        user_id = 2;
        report_id = 9;
        reported_steps = 7000;
        credited_chips = 7000;
        local_date = record { year = 2026; month = 5; day = 1 };
        reported_at = 1;
        reason = "NEW_DAY";
      }
      ∷ [];
})

abbrev paid_twice : ReportStepsResult
paid_twice = value_or no_report (record_report calm in_tx steps (7000, "NEW_DAY") won).0

abbrev after_report : W calm
after_report = (record_report calm in_tx steps (7000, "NEW_DAY") won).1

pays_again : record_report calm in_tx steps (7000, "NEW_DAY") won ≡ (done paid_twice, after_report)
unfolding record_report upsert_daily_row insert_report insert_report_row find_report_row is_err
    apply_deposit_row
pays_again = refl

record_report-pays_example :
    (balance_of 2 after_report.view ≡ add64 (balance_of 2 won.view) (mul64 7000 steps_per_chip))
    × (paid_twice.new_balance ≡ balance_of 2 after_report.view)
    × (paid_twice.credited_chips ≡ mul64 7000 steps_per_chip)
record_report-pays_example =
    record_report-pays calm in_tx steps (7000, "NEW_DAY") won after_report paid_twice pays_again
