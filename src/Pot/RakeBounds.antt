-- ===== src/Pot/RakeBounds.antt =====
-- The bounds of `computeRake` (internal/engine/pot.go).
use pace_poker.Prelude.{ℕ, ◌*◌, ◌/◌, ◌<◌, ◌≤◌, Int64, some, arith, h64}
use pace_poker.Proto.{CashGameConfig}
use pace_poker.Pot.Rake.{compute_rake, cap_rake}

cap_rake_bounds :
    (cap rake : Int64)
    → cap < h64
    → rake < h64
    → (cap_rake cap rake ≤ rake) × (0 < cap → cap_rake cap rake ≤ cap)
cap_rake_bounds cap rake hc hr = ground arith

part-le : (amount bps : ℕ) → bps ≤ 10000 → amount * bps / 10000 ≤ amount
part-le amount bps h = grind arith

-- The rake of a pot below 2 ^ 63 is never more than the pot, and with a positive cap never more
-- than the cap, for a rate of 0 to 10000 basis points whose product with the pot fits an int64.
pub compute_rake_bounds :
    (amount : Int64) (c : CashGameConfig)
    → amount < h64
    → c.rake_bps ≤ 10000
    → c.rake_cap < h64
    → amount * c.rake_bps < h64
    → (compute_rake amount (some c) ≤ amount)
      × (0 < c.rake_cap → compute_rake amount (some c) ≤ c.rake_cap)
unfolding compute_rake
compute_rake_bounds amount c ha hb hc hp = ground (
  arith,
  part-le amount c.rake_bps hb,
  cap_rake_bounds c.rake_cap (amount * c.rake_bps / 10000) hc,
)
