-- ===== src/Storage/Db.antt =====
-- The tables of db/migrations as lists of rows in the order of insertion (the models of
-- internal/store/pgstore/models.go). A serial id is the position. Absent are the columns that no
-- query of the program reads back (inserted_at, published_at, taken_at and updated_at), the columns of
-- a config that only the lobby's search reads, and the foreign keys to users.
use pace_poker.Prelude.{ℕ, Int64, String, Bool, Option, List}
use pace_poker.Storage.Env.{Uuid}

-- A calendar date.
pub record Date : Type 0 where
  pub year : ℕ
  pub month : ℕ
  pub day : ℕ

pub record ConfigRow (B : Type 0) : Type 0 where
  pub game_id : Uuid
  pub config_proto : B
  pub deleted : Bool

pub record EventRow (B : Type 0) : Type 0 where
  pub game_id : Uuid
  pub sequence : Int64
  pub event_type : String
  pub payload : B
  pub envelope : B
  pub caused_by_command_id : Option Uuid
  pub hand_id : Option Uuid
  pub state_version_after : Int64
  pub occurred_at : ℕ

pub record SnapshotRow (B : Type 0) : Type 0 where
  pub game_id : Uuid
  pub sequence : Int64
  pub hand_number : Int64
  pub state_proto : B

pub record UserRow : Type 0 where
  pub id : Uuid
  pub display_name : String
  pub external_id : Option String
  pub timezone : String
  pub max_daily_deposit : Int64
  pub created_at : ℕ
  pub deleted : Bool

pub record BalanceRow : Type 0 where
  pub user_id : Uuid
  pub chip_balance : Int64
  pub total_deposited : Int64
  pub total_reports : Int64
  pub last_deposit_at : Option ℕ
  pub last_activity_at : ℕ

pub record DailyRow : Type 0 where
  pub user_id : Uuid
  pub local_date : Date
  pub max_steps : Int64
  pub last_reported_at : ℕ

pub record ReportRow : Type 0 where
  pub user_id : Uuid
  pub report_id : Uuid
  pub reported_steps : Int64
  pub credited_chips : Int64
  pub local_date : Date
  pub reported_at : ℕ
  pub reason : String

pub record Db (B : Type 0) : Type 0 where
  pub configs : List (ConfigRow B)
  pub events : List (EventRow B)
  pub snapshots : List (SnapshotRow B)
  pub users : List UserRow
  pub balances : List BalanceRow
  pub daily : List DailyRow
  pub reports : List ReportRow
