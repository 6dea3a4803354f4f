-- ===== src/Tests/Reports.antt =====
-- Reports of steps, at the database of the examples.
use pace_poker.Prelude.{◌≡◌, refl}
use pace_poker.Storage.Errors.{Err, sentinel, no_rows, is_err}
use pace_poker.Storage.Db.{ReportRow}
use pace_poker.Storage.Io.{done, failed, W, next, read, with_tx}
use pace_poker.Storage.StepQueries.{find_report_row, get_daily_row}
use pace_poker.Storage.UserQueries.{get_user_row, get_balance_row}
use pace_poker.Storage.Balances.{balance_of}
use pace_poker.Storage.Steps.{
  ReportStepsInput, ReportStepsResult, report_steps, process_report, replay_report, apply_cap,
  classify,
}
use pace_poker.Storage.Reports.{report_steps-failed, report_steps-replayed}
use pace_poker.Tests.Store.{calm, value_or, error_or}
use pace_poker.Tests.Loading.{steps, no_report, won}

-- Nobody has this id.
abbrev nobody : ReportStepsInput
nobody = record steps { user_id = 77 }

abbrev unknown_user : Err
unknown_user = error_or (sentinel no_rows) (report_steps calm nobody won).0

abbrev after_failure : W calm
after_failure = (report_steps calm nobody won).1

fails : report_steps calm nobody won ≡ (failed unknown_user, after_failure)
unfolding report_steps with_tx find_report_row is_err process_report get_daily_row classify
    apply_cap get_user_row
fails = refl

report_steps-failed_example : after_failure.base ≡ won.base
report_steps-failed_example = report_steps-failed calm nobody won after_failure unknown_user fails

abbrev stored : ReportRow
stored = record {
  user_id = 2;
  report_id = 9;
  reported_steps = 7000;
  credited_chips = 7000;
  local_date = record { year = 2026; month = 5; day = 1 };
  reported_at = 1;
  reason = "NEW_DAY";
}

found : read calm (find_report_row 2 9) (next calm won) ≡ (done stored, record won { tick = 2 })
unfolding find_report_row
found = refl

abbrev answer : ReportStepsResult
answer = value_or no_report (report_steps calm steps won).0

abbrev after_answer : W calm
after_answer = (report_steps calm steps won).1

answers : report_steps calm steps won ≡ (done answer, after_answer)
unfolding report_steps with_tx find_report_row is_err replay_report get_daily_row get_balance_row
answers = refl

report_steps-replayed_example :
    (after_answer.base ≡ won.base)
    × (answer.credited_chips ≡ stored.credited_chips)
    × (answer.reason ≡ stored.reason)
    × (answer.new_balance ≡ balance_of 2 won.base)
report_steps-replayed_example =
    report_steps-replayed calm steps stored answer won (record won { tick = 2 }) after_answer refl
      found answers
