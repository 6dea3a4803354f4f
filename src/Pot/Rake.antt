-- ===== src/Pot/Rake.antt =====
-- `computeRake` of internal/engine/pot.go.
use pace_poker.Prelude.{
  Int64, ◌||◌, ◌&&◌, Option, none, some, mul64, div64, lt64, le64, le32, if◌then◌else◌,
}
use pace_poker.Proto.{CashGameConfig}

-- `int64(x)` of a positive int32 is the same pattern, and only such a one is read.
abbrev pub cap_rake : Int64 → Int64 → Int64
cap_rake cap rake = if lt64 0 cap && lt64 cap rake then cap else rake

unfoldable pub compute_rake : Int64 → Option CashGameConfig → Int64
compute_rake amount none = 0
compute_rake amount (some c) =
    if le32 c.rake_bps 0 || le64 amount 0
    then 0
    else cap_rake c.rake_cap (div64 (mul64 amount c.rake_bps) 10000)
