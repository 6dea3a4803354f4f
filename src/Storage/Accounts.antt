-- ===== src/Storage/Accounts.antt =====
-- Users and their balances in internal/store/users.go.
use pace_poker.Prelude.{ℕ, Int64, String, Option, none, some, ◌==◌, str_eq, if◌then◌else◌}
use pace_poker.Storage.Errors.{
  Err, sentinel, wrap, is_err, no_rows, unique_violation, insufficient_balance,
  duplicate_external_id,
}
use pace_poker.Storage.Env.{Env, Uuid}
use pace_poker.Storage.Db.{UserRow, BalanceRow}
use pace_poker.Storage.Io.{
  done, Io, ◌>>=◌, pure, or_fail, Handle, outside, read, write, now, with_tx,
}
use pace_poker.Storage.UserQueries.{
  create_user_row, get_user_row, get_user_row_by_external_id, update_user_settings_row,
  create_balance_row, get_balance_row, debit_balance_row, credit_balance_row,
}
use pace_poker.Storage.Events.{or_not_found}

pub record User : Type 0 where
  pub id : Uuid
  pub display_name : String
  pub external_id : String
  pub timezone : String
  pub max_daily_deposit : Int64
  pub created_at : ℕ

pub record UserSnapshot : Type 0 where
  pub user_id : Uuid
  pub chip_balance : Int64
  pub total_deposited : Int64
  pub total_reports : Int64
  pub last_deposit_at : Option ℕ
  pub last_activity_at : ℕ

pub record UserInput : Type 0 where
  pub id : Uuid
  pub display_name : String
  pub external_id : String
  pub timezone : String
  pub max_daily_deposit : Int64

pub record UpdateUserSettingsInput : Type 0 where
  pub user_id : Uuid
  pub display_name : String
  pub timezone : String
  pub max_daily_deposit : Int64

unfoldable pub row_to_user : UserRow → User
row_to_user r = record {
  id = r.id;
  display_name = r.display_name;
  external_id = elim r.external_id [ none ↦ "" | some x ↦ x ];
  timezone = r.timezone;
  max_daily_deposit = r.max_daily_deposit;
  created_at = r.created_at;
}

abbrev pub row_to_user_snapshot : BalanceRow → UserSnapshot
row_to_user_snapshot r = record {
  user_id = r.user_id;
  chip_balance = r.chip_balance;
  total_deposited = r.total_deposited;
  total_reports = r.total_reports;
  last_deposit_at = r.last_deposit_at;
  last_activity_at = r.last_activity_at;
}

-- What a failed insert of a user is reported as.
abbrev pub or_duplicate : Err → Err
or_duplicate e =
    if is_err e unique_violation then sentinel duplicate_external_id else wrap "insert user" e

-- What a debit without a row is reported as.
abbrev pub or_insufficient : Err → Err
or_insufficient e =
    if is_err e no_rows then sentinel insufficient_balance else wrap "debit user balance" e

module _ (env : Env) where
  -- `uuid.NewV7()`, which may fail.
  abbrev pub new_v7 : Io env.Bytes Uuid
  new_v7 = outside env (λ w. (done (env.fresh w.tick), w))

  -- `CreateUser`.
  unfoldable pub create_user : UserInput → Io env.Bytes (User × UserSnapshot)
  create_user input = do
    id ← if input.id == 0 then or_fail (wrap "generate user id") new_v7 else pure input.id
    let tz = if str_eq input.timezone "" then "UTC" else input.timezone
    with_tx env λ h. do
      at ← now env
      row ← or_fail or_duplicate (
          write env h
            (create_user_row id input.display_name input.external_id tz input.max_daily_deposit at))
      balance ← or_fail (wrap "create user snapshot") (write env h (create_balance_row id at))
      pure (row_to_user row, row_to_user_snapshot balance)

  -- `GetUser`.
  unfoldable pub get_user : Uuid → Io env.Bytes (User × UserSnapshot)
  get_user user = do
    row ← or_fail (or_not_found "get user") (read env (get_user_row user))
    balance ← or_fail (or_not_found "get user snapshot") (read env (get_balance_row user))
    pure (row_to_user row, row_to_user_snapshot balance)

  -- `GetUserByExternalID`.
  unfoldable pub get_user_by_external_id : String → Io env.Bytes (User × UserSnapshot)
  get_user_by_external_id ext = do
    row ←
        or_fail (or_not_found "get user by external_id")
          (read env (get_user_row_by_external_id ext))
    balance ← or_fail (or_not_found "get user snapshot") (read env (get_balance_row row.id))
    pure (row_to_user row, row_to_user_snapshot balance)

  -- `UpdateUserSettings`.
  unfoldable pub update_user_settings : Handle → UpdateUserSettingsInput → Io env.Bytes User
  update_user_settings h input = do
    row ← or_fail (or_not_found "update user settings") (
        write env h (
          update_user_settings_row input.user_id input.display_name input.timezone
            input.max_daily_deposit))
    pure (row_to_user row)

  -- `GetUserSnapshot`.
  unfoldable pub get_user_snapshot : Uuid → Io env.Bytes UserSnapshot
  get_user_snapshot user = do
    row ← or_fail (or_not_found "get user snapshot") (read env (get_balance_row user))
    pure (row_to_user_snapshot row)

  -- `DebitUserBalance`.
  unfoldable pub debit_user_balance : Handle → Uuid → Int64 → Io env.Bytes UserSnapshot
  debit_user_balance h user amount = do
    at ← now env
    row ← or_fail or_insufficient (write env h (debit_balance_row user amount at))
    pure (row_to_user_snapshot row)

  -- `CreditUserBalance`.
  unfoldable pub credit_user_balance : Handle → Uuid → Int64 → Io env.Bytes UserSnapshot
  credit_user_balance h user amount = do
    at ← now env
    row ←
        or_fail (or_not_found "credit user balance")
          (write env h (credit_balance_row user amount at))
    pure (row_to_user_snapshot row)
