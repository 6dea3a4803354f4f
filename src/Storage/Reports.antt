-- ===== src/Storage/Reports.antt =====
-- A report of steps that fails, and one that comes a second time (`ReportSteps` of
-- internal/store/users.go).
use pace_poker.Prelude.{Int64, String, ◌≡◌, refl, ap, ◌∙◌, arith}
use pace_poker.Storage.Errors.{Err}
use pace_poker.Storage.Env.{Env}
use pace_poker.Storage.Db.{ReportRow}
use pace_poker.Storage.Io.{Outcome, done, failed, read, in_tx, W, next}
use pace_poker.Storage.StepQueries.{find_report_row}
use pace_poker.Storage.UserQueries.{get_balance_row}
use pace_poker.Storage.Balances.{balance_of}
use pace_poker.Storage.Frame.{KeepsBase, with_tx-failed, with_tx-done}
use pace_poker.Storage.Steps.{
  ReportStepsInput, ReportStepsResult, apply_cap, or_none, replay_report, insert_report,
  record_report, process_report, report_steps,
}

module _ (env : Env) where
  KeepsBase-apply_cap :
      (input : ReportStepsInput) (credit : Int64 × String) → KeepsBase (apply_cap env input credit)
  unfolding apply_cap
  KeepsBase-apply_cap input credit w = ground arith

  KeepsBase-insert_report : (row : ReportRow) → KeepsBase (insert_report env in_tx row)
  unfolding insert_report
  KeepsBase-insert_report row w = ground arith

  KeepsBase-record_report :
      (input : ReportStepsInput) (credit : Int64 × String)
      → KeepsBase (record_report env in_tx input credit)
  unfolding record_report
  KeepsBase-record_report input credit w = grind (arith, KeepsBase-insert_report)

  KeepsBase-or_none :
      {A : Type 0} (text : String) (found : Outcome A) → KeepsBase (or_none env text found)
  KeepsBase-or_none text (done a) w = refl
  KeepsBase-or_none text (failed e) w = ground arith

  KeepsBase-process_report : (input : ReportStepsInput) → KeepsBase (process_report env in_tx input)
  unfolding process_report
  KeepsBase-process_report input w =
      grind (arith, KeepsBase-apply_cap input, KeepsBase-record_report input)

  KeepsBase-replay_report :
      (input : ReportStepsInput) (row : ReportRow) → KeepsBase (replay_report env input row)
  unfolding replay_report
  KeepsBase-replay_report input row w = ground arith

  -- A report of steps that fails, at whatever call, leaves every committed row as it was: no credit is
  -- paid, no report is stored and the day's high-water mark stands.
  pub report_steps-failed :
      (input : ReportStepsInput) (w w2 : W env) (e : Err)
      → report_steps env input w ≡ (failed e, w2)
      → w2.base ≡ w.base
  unfolding report_steps
  report_steps-failed input w w2 e =
      with_tx-failed env _ w w2 e
        (λ w'. grind (arith, KeepsBase-process_report input, KeepsBase-replay_report input))

  -- The answer from a stored row, and the world after it.
  replay_report-reads :
      (input : ReportStepsInput) (row : ReportRow) (r : ReportStepsResult) (w w2 : W env)
      → replay_report env input row w ≡ (done r, w2)
      → (w2.view ≡ w.view)
        × (r.credited_chips ≡ row.credited_chips)
        × (r.reason ≡ row.reason)
        × (r.new_balance ≡ balance_of input.user_id w.view)
  unfolding replay_report get_balance_row
  replay_report-reads input row r w w2 h =
      (ground (arith, h), ground (arith, h), ground (arith, h), ground (arith, h))

  -- A report that the look-up finds is answered from its row: the committed rows stay as they were,
  -- and the answer has the chips and the reason that were stored, with the balance of now. (The
  -- look-up and the call succeed, outside of another transaction.)
  pub report_steps-replayed :
      (input : ReportStepsInput) (row : ReportRow) (r : ReportStepsResult) (w w1 w2 : W env)
      → w.view ≡ w.base
      → read env (find_report_row input.user_id input.report_id) (next env w) ≡ (done row, w1)
      → report_steps env input w ≡ (done r, w2)
      → (w2.base ≡ w.base)
        × (r.credited_chips ≡ row.credited_chips)
        × (r.reason ≡ row.reason)
        × (r.new_balance ≡ balance_of input.user_id w.base)
  unfolding report_steps
  report_steps-replayed input row r w w1 w2 same found h =
      let (w3, ran, kept, v) = with_tx-done env _ w w2 r h in
      let unmoved : w1.view ≡ w.view = ground (arith, found) in
      let replays : replay_report env input row w1 ≡ (done r, w3) = ground (arith, found, ran) in
      let (v2, c, s, b) = replay_report-reads input row r w1 w3 replays in
      (kept ∙ v2 ∙ unmoved ∙ same, c, s, b ∙ ap (balance_of input.user_id) (unmoved ∙ same))
