-- ===== src/Storage/Credits.antt =====
-- What a report of steps is credited with (`ReportSteps` of internal/store/users.go).
use pace_poker.Prelude.{
  ℕ, ◌-◌, ◌≤◌, ◌<◌, Int64, String, ◌≡◌, ◌⊎◌, sym, ap, ◌∙◌, inl, inr, arith, h64, add64, sub64,
  mul64,
}
use pace_poker.Storage.Env.{Env}
use pace_poker.Storage.Db.{Db, DailyRow, ReportRow}
use pace_poker.Storage.Io.{done, W, next, Handle, Run-cases, write}
use pace_poker.Storage.StepQueries.{upsert_daily_row, insert_report_row, find_report_row}
use pace_poker.Storage.UserQueries.{apply_deposit_row, find_balance}
use pace_poker.Storage.Balances.{balance_of, chips_of, write-done, apply_deposit_row-moves}
use pace_poker.Storage.Steps.{
  ReportStepsInput, ReportStepsResult, classify, cap_to, insert_report, record_report,
  steps_per_chip,
}

-- Before the cap, a report brings the steps beyond the day's high-water mark, none if it is not above
-- it. The cap makes of them the lesser of these and what it leaves over what the day has brought
-- already: never a negative number, and 0 where the cap is used up, also where it has been lowered
-- below what was credited. (The numbers are int64s that are not negative; `-` stops at 0.)
pub credit-bounds :
    (steps prev most credited : ℕ)
    → steps < h64
    → prev < h64
    → most < h64
    → credited < h64
    → ((cap_to (sub64 most credited) (classify steps prev)).0 ≤ most - credited)
      × ((cap_to (sub64 most credited) (classify steps prev)).0 ≤ steps - prev)
      × (((cap_to (sub64 most credited) (classify steps prev)).0 ≡ steps - prev)
          ⊎ ((cap_to (sub64 most credited) (classify steps prev)).0 ≡ most - credited))
      × ((classify steps prev).0 ≡ steps - prev)
unfolding cap_to classify
credit-bounds steps prev most credited a b c d = (
  ground (arith, a, b, c, d),
  ground (arith, a, b, c, d),
  ground (arith, a, b, c, d),
  ground (arith, a, b),
)

module _ (env : Env) where
  abbrev row_of : ReportStepsInput → Int64 × String → ℕ → ReportRow
  row_of input credit at = record {
    user_id = input.user_id;
    report_id = input.report_id;
    reported_steps = input.cumulative_steps_today;
    credited_chips = mul64 credit.0 steps_per_chip;
    local_date = input.local_date;
    reported_at = at;
    reason = credit.1;
  }

  upsert-balances :
      (input : ReportStepsInput) (at : ℕ) (db db2 : Db env.Bytes) (r : DailyRow)
      → upsert_daily_row input.user_id input.local_date input.cumulative_steps_today at db
        ≡ done (r, db2)
      → (db2.balances ≡ db.balances) × (db2.reports ≡ db.reports)
  unfolding upsert_daily_row
  upsert-balances input at db db2 r h = ground (arith, h)

  -- An insert that finds the report there already gives that report, and adds nothing.
  insert_report-rows :
      (h : Handle) (row r : ReportRow) (w w2 : W env)
      → insert_report env h row w ≡ (done r, w2)
      → w2.view.balances ≡ w.view.balances
  unfolding insert_report insert_report_row find_report_row
  insert_report-rows h row r w w2 e = ground (arith, e)

  -- Steps 5 to 7 always pay: when they succeed, the user's balance has grown by the credit, also where
  -- the insert of the report has found a report with this id in the table.
  pub record_report-pays :
      (h : Handle) (input : ReportStepsInput) (credit : Int64 × String) (w w2 : W env)
      (r : ReportStepsResult)
      → record_report env h input credit w ≡ (done r, w2)
      → (balance_of input.user_id w2.view
          ≡ add64 (balance_of input.user_id w.view) (mul64 credit.0 steps_per_chip))
        × (r.new_balance ≡ balance_of input.user_id w2.view)
        × (r.credited_chips ≡ mul64 credit.0 steps_per_chip)
  unfolding record_report
  record_report-pays h input credit w w2 r e =
      let at = env.clock w.tick in
      let up = upsert_daily_row input.user_id input.local_date input.cumulative_steps_today at in
      let pay = apply_deposit_row input.user_id (mul64 credit.0 steps_per_chip) at in
      elim (Run-cases (write env h up (next env w))) [
        | inr (x, w3, a) ↦ ground (arith, e, a)
        | inl (updated, w3, a) ↦
            elim (Run-cases (insert_report env h (row_of input credit at) w3)) [
              | inr (x, w4, b) ↦ ground (arith, e, a, b)
              | inl (report, w4, b) ↦ elim (Run-cases (write env h pay w4)) [
                | inr (x, w5, c) ↦ ground (arith, e, a, b, c)
                | inl (balance, w5, c) ↦
                    let ups =
                      upsert-balances input at w.view w3.view updated
                        (write-done env h up (next env w) w3 updated a) in
                    let ins = insert_report-rows h (row_of input credit at) report w3 w4 b in
                    let pays =
                      apply_deposit_row-moves input.user_id (mul64 credit.0 steps_per_chip) at
                        w4.view w5.view balance (write-done env h pay w4 w5 balance c) in
                    let before : balance_of input.user_id w4.view
                        ≡ balance_of input.user_id w.view =
                      ap (λ l. chips_of (find_balance input.user_id l)) (ins ∙ ups.0) in
                    let runs : w5 ≡ w2 = ground (arith, e, a, b, c) in
                    let told : r.new_balance ≡ balance.chip_balance = ground (arith, e, a, b, c) in
                    let grown = ap (λ x. balance_of input.user_id x.view) runs in
                    (
                      sym grown ∙ pays.1 ∙ ap (λ x. add64 x (mul64 credit.0 steps_per_chip)) before,
                      told ∙ pays.0 ∙ grown,
                      ground (arith, e, a, b, c),
                    )
              ]
            ]
      ]
