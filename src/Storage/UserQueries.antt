-- ===== src/Storage/UserQueries.antt =====
-- The queries of internal/store/pgstore/users.sql.go and user_snapshots.sql.go, on the rows, with
-- the tables' CHECK constraints. `at` is the transaction's NOW().
use pace_poker.Prelude.{
  ℕ, Int64, String, Bool, false, ◌&&◌, ◌||◌, not, Option, none, some, List, [], ◌∷◌, ◌++◌, keep,
  add64, sub64, lt64, le64, ◌==◌, ltb, str_eq, rune_count, if◌then◌else◌,
}
use pace_poker.Storage.Errors.{sentinel, no_rows, unique_violation, check_violation}
use pace_poker.Storage.Env.{Uuid}
use pace_poker.Storage.Db.{Db, UserRow, BalanceRow}
use pace_poker.Storage.Io.{Outcome, done, failed}
use pace_poker.Storage.EventQueries.{first_row}

-- `COALESCE(NULLIF(new, ''), old)`.
abbrev pub or_old : String → String → String
or_old new old = if str_eq new "" then old else new

-- `NULLIF(x, '')`.
abbrev pub null_if_empty : String → Option String
null_if_empty x = if str_eq x "" then none else some x

abbrev pub same_external : Option String → Option String → Bool
same_external none o = false
same_external (some a) none = false
same_external (some a) (some b) = str_eq a b

-- A row with this primary key or this external id.
abbrev pub user_taken : List UserRow → UserRow → Bool
user_taken [] r = false
user_taken (x ∷ xs) r = x.id == r.id || same_external x.external_id r.external_id || user_taken xs r

-- `users_display_name_len` and `users_max_daily_nonneg`.
abbrev pub user_checks : UserRow → Bool
user_checks r =
    ltb 0 (rune_count r.display_name)
    && ltb (rune_count r.display_name) 51
    && le64 0 r.max_daily_deposit

-- The row with the new settings; an empty text and a negative cap change nothing.
abbrev pub with_settings : String → String → Int64 → UserRow → UserRow
with_settings name tz most r = record r {
  display_name = or_old name r.display_name;
  timezone = or_old tz r.timezone;
  max_daily_deposit = if lt64 most 0 then r.max_daily_deposit else most;
}

abbrev pub replace_user : UserRow → List UserRow → List UserRow
replace_user r [] = []
replace_user r (x ∷ xs) = if x.id == r.id then r ∷ xs else x ∷ replace_user r xs

abbrev pub find_balance : Uuid → List BalanceRow → Option BalanceRow
find_balance id [] = none
find_balance id (r ∷ rs) = if r.user_id == id then some r else find_balance id rs

abbrev pub replace_balance : BalanceRow → List BalanceRow → List BalanceRow
replace_balance r [] = []
replace_balance r (x ∷ xs) = if x.user_id == r.user_id then r ∷ xs else x ∷ replace_balance r xs

module _ {B : Type 0} where
  -- `CreateUser`.
  unfoldable pub create_user_row :
      Uuid → String → String → String → Int64 → ℕ → Db B → Outcome (UserRow × Db B)
  create_user_row id name ext tz most at db =
      let r : UserRow = record {
        id = id;
        display_name = name;
        external_id = null_if_empty ext;
        timezone = or_old tz "UTC";
        max_daily_deposit = most;
        created_at = at;
        deleted = false;
      } in
      if not (user_checks r)
      then failed (sentinel check_violation)
      else if user_taken db.users r
      then failed (sentinel unique_violation)
      else done (r, record db { users = db.users ++ r ∷ [] })

  -- `GetUser`.
  unfoldable pub get_user_row : Uuid → Db B → Outcome UserRow
  get_user_row id db = first_row (keep (λ r. r.id == id && not r.deleted) db.users)

  -- `GetUserByExternalID`.
  unfoldable pub get_user_row_by_external_id : String → Db B → Outcome UserRow
  get_user_row_by_external_id ext db =
      first_row (keep (λ r. same_external r.external_id (some ext) && not r.deleted) db.users)

  -- `UpdateUserSettings`.
  unfoldable pub update_user_settings_row :
      Uuid → String → String → Int64 → Db B → Outcome (UserRow × Db B)
  update_user_settings_row id name tz most db = elim (get_user_row id db) [
    | failed e ↦ failed e
    | done r ↦
        let r' = with_settings name tz most r in
        if user_checks r'
        then done (r', record db { users = replace_user r' db.users })
        else failed (sentinel check_violation)
  ]

  -- `CreateUserSnapshot`; the columns' defaults.
  unfoldable pub create_balance_row : Uuid → ℕ → Db B → Outcome (BalanceRow × Db B)
  create_balance_row id at db = elim (find_balance id db.balances) [
    | some _ ↦ failed (sentinel unique_violation)
    | none ↦
        let r : BalanceRow = record {
          user_id = id;
          chip_balance = 0;
          total_deposited = 0;
          total_reports = 0;
          last_deposit_at = none;
          last_activity_at = at;
        } in
        done (r, record db { balances = db.balances ++ r ∷ [] })
  ]

  -- `GetUserSnapshot`.
  unfoldable pub get_balance_row : Uuid → Db B → Outcome BalanceRow
  get_balance_row id db = elim (find_balance id db.balances) [
    | none ↦ failed (sentinel no_rows)
    | some r ↦ done r
  ]

  -- A sum that leaves the BIGINT range is an error of PostgreSQL, and so is a negative balance.
  abbrev pub checked_balance : BalanceRow → Db B → Outcome (BalanceRow × Db B)
  checked_balance r db =
      if lt64 r.chip_balance 0 || lt64 r.total_deposited 0
      then failed (sentinel check_violation)
      else done (r, record db { balances = replace_balance r db.balances })

  -- `DebitUserBalance`: no row where the balance is below the amount.
  unfoldable pub debit_balance_row : Uuid → Int64 → ℕ → Db B → Outcome (BalanceRow × Db B)
  debit_balance_row id amount at db = elim (find_balance id db.balances) [
    | none ↦ failed (sentinel no_rows)
    | some r ↦
        if le64 amount r.chip_balance
        then checked_balance
            (record r { chip_balance = sub64 r.chip_balance amount; last_activity_at = at }) db
        else failed (sentinel no_rows)
  ]

  -- `CreditUserBalance`.
  unfoldable pub credit_balance_row : Uuid → Int64 → ℕ → Db B → Outcome (BalanceRow × Db B)
  credit_balance_row id amount at db = elim (find_balance id db.balances) [
    | none ↦ failed (sentinel no_rows)
    | some r ↦
        checked_balance
          (record r { chip_balance = add64 r.chip_balance amount; last_activity_at = at }) db
  ]

  -- `ApplyDepositToSnapshot`.
  unfoldable pub apply_deposit_row : Uuid → Int64 → ℕ → Db B → Outcome (BalanceRow × Db B)
  apply_deposit_row id amount at db = elim (find_balance id db.balances) [
    | none ↦ failed (sentinel no_rows)
    | some r ↦
        checked_balance
          (record r {
            chip_balance = add64 r.chip_balance amount;
            total_deposited = add64 r.total_deposited amount;
            total_reports = add64 r.total_reports 1;
            last_deposit_at = if lt64 0 amount then some at else r.last_deposit_at;
            last_activity_at = at;
          })
          db
  ]
