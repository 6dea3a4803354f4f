-- ===== src/Storage/Steps.antt =====
-- Step deposits in internal/store/users.go.
use pace_poker.Prelude.{
  ℕ, Int32, Int64, String, ◌&&◌, Option, none, some, List, ◌==◌, lt64, le64, le32, lt32, sub64,
  mul64, if◌then◌else◌,
}
use pace_poker.Storage.Errors.{wrap, is_err, no_rows}
use pace_poker.Storage.Env.{Env, Uuid}
use pace_poker.Storage.Db.{Date, DailyRow, ReportRow}
use pace_poker.Storage.Io.{
  Outcome, done, failed, Io, ◌>>=◌, pure, fail, or_fail, attempt, Handle, read, write, now, with_tx,
}
use pace_poker.Storage.StepQueries.{
  get_daily_row, upsert_daily_row, insert_report_row, find_report_row, list_report_rows,
  count_report_rows, sum_credited_today,
}
use pace_poker.Storage.UserQueries.{get_user_row, get_balance_row, apply_deposit_row}

abbrev pub steps_per_chip : Int64
steps_per_chip = 1

pub record ReportStepsInput : Type 0 where
  pub user_id : Uuid
  pub report_id : Uuid
  pub cumulative_steps_today : Int64
  pub local_date : Date

pub record ReportStepsResult : Type 0 where
  pub credited_chips : Int64
  pub new_balance : Int64
  pub daily_high_water : Int64
  pub reason : String
  pub processed_at : ℕ

-- The number of steps that are new, and the reason.
unfoldable pub classify : Int64 → Int64 → Int64 × String
classify steps prev =
    if lt64 steps prev
    then (0, "NO_OP_LOWER")
    else if steps == prev && lt64 0 prev
    then (0, "NO_OP_DUPLICATE_VALUE")
    else if prev == 0
    then (steps, "NEW_DAY")
    else (sub64 steps prev, "INCREMENT")

-- What the daily cap leaves of it.
unfoldable pub cap_to : Int64 → Int64 × String → Int64 × String
cap_to remaining (delta, reason) =
    if le64 remaining 0
    then (0, "CAP_EXCEEDED")
    else if lt64 remaining delta
    then (remaining, "CAP_PARTIAL")
    else (delta, reason)

-- `if dErr == nil { hwm = daily.MaxSteps }`.
abbrev pub high_water : Int64 → Outcome DailyRow → Int64
high_water other (done r) = r.max_steps
high_water other (failed e) = other

module _ (env : Env) where
  -- The rest of step 4: the sum of the day's credits against the cap of the user.
  unfoldable pub apply_cap : ReportStepsInput → Int64 × String → Io env.Bytes (Int64 × String)
  apply_cap input (delta, reason) =
      if lt64 0 delta
      then (do
        user ← or_fail (wrap "get user for cap check") (read env (get_user_row input.user_id))
        if lt64 0 user.max_daily_deposit
            then (do
              credited ←
                  or_fail (wrap "sum credited today")
                    (read env (λ db. done (sum_credited_today input.user_id input.local_date db)))
              pure (cap_to (sub64 user.max_daily_deposit credited) (delta, reason)))
            else pure (delta, reason))
      else pure (delta, reason)

  -- `err != nil && !errors.Is(err, pgx.ErrNoRows)` is an error, no row is none.
  abbrev pub or_none : {A : Type 0} → String → Outcome A → Io env.Bytes (Option A)
  or_none text (done a) = pure (some a)
  or_none text (failed e) = if is_err e no_rows then pure none else fail (wrap text e)

  -- A report that was processed before: its result again.
  unfoldable pub replay_report : ReportStepsInput → ReportRow → Io env.Bytes ReportStepsResult
  replay_report input existing = do
    balance ←
        or_fail (wrap "snapshot for idempotency replay") (read env (get_balance_row input.user_id))
    daily ← attempt (read env (get_daily_row input.user_id input.local_date))
    pure (record {
      credited_chips = existing.credited_chips;
      new_balance = balance.chip_balance;
      daily_high_water = high_water existing.reported_steps daily;
      reason = existing.reason;
      processed_at = existing.reported_at;
    })

  -- Step 6: the audit row, or where the insert finds one, that one.
  unfoldable pub insert_report : Handle → ReportRow → Io env.Bytes ReportRow
  insert_report h row = do
    inserted ← attempt (write env h (insert_report_row row))
    or_fail (wrap "insert deposit report") (elim inserted [
      | done r ↦ pure r
      | failed e ↦
          if is_err e no_rows then read env (find_report_row row.user_id row.report_id) else fail e
    ])

  -- Steps 5 to 7.
  unfoldable pub record_report :
      Handle → ReportStepsInput → Int64 × String → Io env.Bytes ReportStepsResult
  record_report h input credit = do
    at ← now env
    updated ← or_fail (wrap "upsert daily steps") (
        write env h
          (upsert_daily_row input.user_id input.local_date input.cumulative_steps_today at))
    let chips : Int64 = mul64 credit.0 steps_per_chip
    report ← insert_report h (record {
      user_id = input.user_id;
      report_id = input.report_id;
      reported_steps = input.cumulative_steps_today;
      credited_chips = chips;
      local_date = input.local_date;
      reported_at = at;
      reason = credit.1;
    })
    balance ←
        or_fail (wrap "apply deposit to snapshot")
          (write env h (apply_deposit_row input.user_id chips at))
    pure (record {
      credited_chips = chips;
      new_balance = balance.chip_balance;
      daily_high_water = updated.max_steps;
      reason = credit.1;
      processed_at = report.reported_at;
    })

  -- Steps 2 to 7.
  unfoldable pub process_report : Handle → ReportStepsInput → Io env.Bytes ReportStepsResult
  process_report h input = do
    found ← attempt (read env (get_daily_row input.user_id input.local_date))
    daily ← or_none "lock daily steps" found
    let prev : Int64 = elim daily [ none ↦ 0 | some r ↦ r.max_steps ]
    credit ← apply_cap input (classify input.cumulative_steps_today prev)
    record_report h input credit

  -- `ReportSteps`.
  unfoldable pub report_steps : ReportStepsInput → Io env.Bytes ReportStepsResult
  report_steps input = with_tx env λ h. do
    found ← attempt (read env (find_report_row input.user_id input.report_id))
    existing ← or_none "idempotency check" found
    elim existing [ some row ↦ replay_report input row | none ↦ process_report h input ]

  abbrev pub page_limit : Int32 → Int32
  page_limit limit = if le32 limit 0 then 50 else if lt32 200 limit then 200 else limit

  -- `ListDepositReports`; the offset is not negative.
  unfoldable pub list_deposit_reports : Uuid → Int32 → ℕ → Io env.Bytes (List ReportRow × ℕ)
  list_deposit_reports user limit offset = do
    rows ←
        or_fail (wrap "list deposit reports")
          (read env (λ db. done (list_report_rows user (page_limit limit) offset db)))
    count ←
        or_fail (wrap "count deposit reports") (read env (λ db. done (count_report_rows user db)))
    pure (rows, count)

  -- `FindDepositReport`.
  unfoldable pub find_deposit_report : Uuid → Uuid → Io env.Bytes (Option ReportRow)
  find_deposit_report user report = do
    found ← attempt (read env (find_report_row user report))
    or_none "find deposit report" found
