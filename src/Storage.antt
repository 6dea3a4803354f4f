-- ===== src/Storage.antt =====
-- internal/store over PostgreSQL: the tables of db/migrations, the queries of db/queries as sqlc
-- renders them in internal/store/pgstore, and the methods of `pgStore`.
pub mod Errors
pub mod Env
pub mod Db
pub mod Io
pub mod EventQueries
pub mod UserQueries
pub mod StepQueries
pub mod Events
pub mod Tables
pub mod Accounts
pub mod Steps
pub mod Credits
pub mod Reports
pub mod Frame
pub mod Balances
pub mod Log
pub mod Lookup
