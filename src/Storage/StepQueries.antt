-- ===== src/Storage/StepQueries.antt =====
-- The queries of internal/store/pgstore/step_deposits.sql.go, on the rows, with the tables' CHECK
-- constraints. `at` is the transaction's NOW().
use pace_poker.Prelude.{
  ℕ, Int64, Bool, ◌&&◌, Option, none, some, List, [], ◌∷◌, ◌++◌, keep, take, drop, length, add64,
  lt64, ◌==◌, ltb, sort_by, if◌then◌else◌,
}
use pace_poker.Storage.Errors.{sentinel, no_rows, check_violation}
use pace_poker.Storage.Env.{Uuid}
use pace_poker.Storage.Db.{Db, Date, DailyRow, ReportRow}
use pace_poker.Storage.Io.{Outcome, done, failed}

abbrev pub same_date : Date → Date → Bool
same_date a b = a.year == b.year && (a.month == b.month && a.day == b.day)

abbrev pub daily_of : Uuid → Date → DailyRow → Bool
daily_of user date r = r.user_id == user && same_date r.local_date date

abbrev pub find_daily : Uuid → Date → List DailyRow → Option DailyRow
find_daily user date [] = none
find_daily user date (r ∷ rs) = if daily_of user date r then some r else find_daily user date rs

abbrev pub replace_daily : DailyRow → List DailyRow → List DailyRow
replace_daily r [] = []
replace_daily r (x ∷ xs) =
    if daily_of r.user_id r.local_date x then r ∷ xs else x ∷ replace_daily r xs

abbrev pub report_of : Uuid → Uuid → ReportRow → Bool
report_of user report r = r.user_id == user && r.report_id == report

abbrev pub find_report : Uuid → Uuid → List ReportRow → Option ReportRow
find_report user report [] = none
find_report user report (r ∷ rs) =
    if report_of user report r then some r else find_report user report rs

-- The sum of the chips that the reports of one day have credited.
abbrev pub sum_credited : Uuid → Date → List ReportRow → Int64
sum_credited user date [] = 0
sum_credited user date (r ∷ rs) =
    if r.user_id == user && same_date r.local_date date
    then add64 r.credited_chips (sum_credited user date rs)
    else sum_credited user date rs

-- The row that `ON CONFLICT DO UPDATE` leaves: the greater number of steps.
abbrev pub raised_row : Int64 → ℕ → DailyRow → DailyRow
raised_row steps at r =
    if lt64 r.max_steps steps then record r { max_steps = steps; last_reported_at = at } else r

module _ {B : Type 0} where
  -- `GetDailyStepsForUpdate`.
  unfoldable pub get_daily_row : Uuid → Date → Db B → Outcome DailyRow
  get_daily_row user date db = elim (find_daily user date db.daily) [
    | none ↦ failed (sentinel no_rows)
    | some r ↦ done r
  ]

  -- `UpsertDailyStepsHighWaterMark`.
  unfoldable pub upsert_daily_row : Uuid → Date → Int64 → ℕ → Db B → Outcome (DailyRow × Db B)
  upsert_daily_row user date steps at db =
      if lt64 steps 0
      then failed (sentinel check_violation)
      else elim (find_daily user date db.daily) [
        | some r ↦
            let r' : DailyRow = raised_row steps at r in
            done (r', record db { daily = replace_daily r' db.daily })
        | none ↦
            let r' : DailyRow = record {
              user_id = user;
              local_date = date;
              max_steps = steps;
              last_reported_at = at;
            } in
            done (r', record db { daily = db.daily ++ r' ∷ [] })
      ]

  -- `InsertDepositReport`: no row where the report is there already.
  unfoldable pub insert_report_row : ReportRow → Db B → Outcome (ReportRow × Db B)
  insert_report_row r db =
      if lt64 r.credited_chips 0
      then failed (sentinel check_violation)
      else elim (find_report r.user_id r.report_id db.reports) [
        | some _ ↦ failed (sentinel no_rows)
        | none ↦ done (r, record db { reports = db.reports ++ r ∷ [] })
      ]

  -- `FindDepositReportByReportID`.
  unfoldable pub find_report_row : Uuid → Uuid → Db B → Outcome ReportRow
  find_report_row user report db = elim (find_report user report db.reports) [
    | none ↦ failed (sentinel no_rows)
    | some r ↦ done r
  ]

  abbrev pub reports_of : Uuid → Db B → List ReportRow
  reports_of user db = keep (λ r. r.user_id == user) db.reports

  -- `ListDepositReports`.
  unfoldable pub list_report_rows : Uuid → ℕ → ℕ → Db B → List ReportRow
  list_report_rows user limit offset db =
      take limit
        (drop offset (sort_by (λ a b. ltb b.reported_at a.reported_at) (reports_of user db)))

  -- `CountDepositReports`.
  unfoldable pub count_report_rows : Uuid → Db B → ℕ
  count_report_rows user db = length (reports_of user db)

  -- `SumCreditedToday`.
  unfoldable pub sum_credited_today : Uuid → Date → Db B → Int64
  sum_credited_today user date db = sum_credited user date db.reports
