-- ===== src/Prelude/Words.antt =====
-- Go's fixed-width integers. An int64 or int32 is its two's-complement bit pattern, a number
-- below 2 ^ 64 or 2 ^ 32; arithmetic wraps, and the signed order is that of the shifted patterns.
use Prim.Native.Nat.{ℕ, ◌+◌, ◌-◌, ◌*◌, ◌/◌, ◌%◌, ◌^◌, ◌<◌}
use mathlib.Core.Path.{◌≡◌}
use mathlib.Core.Bool.{Bool}
use native.Mathlib.Omega.{arith}
use pace_poker.Prelude.Tests.{ltb, leb, if◌then◌else◌}

abbrev pub Int64 : Type 0
Int64 = ℕ

abbrev pub Int32 : Type 0
Int32 = ℕ

abbrev pub m64 : ℕ
m64 = 2 ^ 64

abbrev pub h64 : ℕ
h64 = 2 ^ 63

abbrev pub m32 : ℕ
m32 = 2 ^ 32

abbrev pub h32 : ℕ
h32 = 2 ^ 31

abbrev pub add64 : Int64 → Int64 → Int64
add64 a b = (a + b) % m64

abbrev pub sub64 : Int64 → Int64 → Int64
sub64 a b = (a + (m64 - b % m64)) % m64

abbrev pub mul64 : Int64 → Int64 → Int64
mul64 a b = (a * b) % m64

-- Signed `a < b`.
abbrev pub lt64 : Int64 → Int64 → Bool
lt64 a b = ltb ((a + h64) % m64) ((b + h64) % m64)

-- Signed `a <= b`.
abbrev pub le64 : Int64 → Int64 → Bool
le64 a b = leb ((a + h64) % m64) ((b + h64) % m64)

-- Signed division and remainder by a positive `b`: the quotient is cut toward zero, and the
-- remainder takes the sign of `a`.
abbrev pub div64 : Int64 → ℕ → Int64
div64 a b = if ltb a h64 then a / b else (m64 - (m64 - a) / b) % m64

abbrev pub mod64 : Int64 → ℕ → Int64
mod64 a b = if ltb a h64 then a % b else (m64 - (m64 - a) % b) % m64

-- Go's built-in `min` on int64.
abbrev pub min64 : Int64 → Int64 → Int64
min64 a b = if lt64 b a then b else a

abbrev pub add32 : Int32 → Int32 → Int32
add32 a b = (a + b) % m32

abbrev pub lt32 : Int32 → Int32 → Bool
lt32 a b = ltb ((a + h32) % m32) ((b + h32) % m32)

abbrev pub le32 : Int32 → Int32 → Bool
le32 a b = leb ((a + h32) % m32) ((b + h32) % m32)

-- Below 2 ^ 63 the pattern is the value, and the signed order is that of the naturals.
pub lt64-eq-ltb : (a b : ℕ) → a < h64 → b < h64 → lt64 a b ≡ ltb a b
lt64-eq-ltb a b ha hb = ground arith

pub le64-eq-leb : (a b : ℕ) → a < h64 → b < h64 → le64 a b ≡ leb a b
le64-eq-leb a b ha hb = ground arith
