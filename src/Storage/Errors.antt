-- ===== src/Storage/Errors.antt =====
-- Go's error values in internal/store, internal/engine and internal/lobby: the sentinels, and what
-- `fmt.Errorf` builds on them.
use pace_poker.Prelude.{ℕ, String, Bool, false, Option, none, some, ◌==◌}

pub data Sentinel : Type 0 where
  concurrent_write not_found insufficient_balance duplicate_external_id : Sentinel
  insufficient_funds seat_taken buy_in_out_of_range game_closed : Sentinel
  already_seated table_full user_not_at_table : Sentinel
  -- of pgx and PostgreSQL
  no_rows unique_violation check_violation : Sentinel
  -- of the engine
  session_closed inbox_full game_not_found : Sentinel

abbrev pub sentinel_code : Sentinel → ℕ
sentinel_code concurrent_write = 0
sentinel_code not_found = 1
sentinel_code insufficient_balance = 2
sentinel_code duplicate_external_id = 3
sentinel_code insufficient_funds = 4
sentinel_code seat_taken = 5
sentinel_code buy_in_out_of_range = 6
sentinel_code game_closed = 7
sentinel_code already_seated = 8
sentinel_code table_full = 9
sentinel_code user_not_at_table = 10
sentinel_code no_rows = 11
sentinel_code unique_violation = 12
sentinel_code check_violation = 13
sentinel_code session_closed = 14
sentinel_code inbox_full = 15
sentinel_code game_not_found = 16

pub data Err : Type 0 where
  sentinel : Sentinel → Err
  -- an error with a text alone
  message : String → Err
  -- `fmt.Errorf("text: %w", err)`
  wrap : String → Err → Err
  -- `fmt.Errorf("%w: text", err)`
  noted : Err → String → Err

-- The sentinel behind the wrappings.
abbrev pub root : Err → Option Sentinel
root (sentinel s) = some s
root (message t) = none
root (wrap t e) = root e
root (noted e t) = root e

abbrev pub same_sentinel : Option Sentinel → Sentinel → Bool
same_sentinel none s = false
same_sentinel (some r) s = sentinel_code r == sentinel_code s

-- `errors.Is(err, sentinel)`.
unfoldable pub is_err : Err → Sentinel → Bool
is_err e s = same_sentinel (root e) s

-- `err == sentinel`, which does not look behind a wrapping.
unfoldable pub equals_err : Err → Sentinel → Bool
equals_err (sentinel r) s = sentinel_code r == sentinel_code s
equals_err _ s = false
