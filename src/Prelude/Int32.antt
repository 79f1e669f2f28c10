-- ===== src/Prelude/Int32.antt =====
-- Go's `int32` as a bit pattern: a number below 2 ^ 32, read in two's complement. Sums, differences
-- and products wrap around.
use Prim.Native.Nat.{ℕ, ◌+◌, ◌-◌, ◌*◌, ◌%◌}
use mathlib.Core.Bool.{Bool}
use redis_foxtrot_autoscaler.Prelude.Tests.{ltb, leb, if◌then◌else◌}
use redis_foxtrot_autoscaler.Prelude.Int.{ℤ, pos, neg_ℕ}

abbrev pub Int32 : Type 0
Int32 = ℕ

-- 2 ^ 32 and 2 ^ 31.
abbrev pub modulus : ℕ
modulus = 4294967296

abbrev pub half : ℕ
half = 2147483648

abbrev pub add32 : Int32 → Int32 → Int32
add32 a b = (a + b) % modulus

abbrev pub sub32 : Int32 → Int32 → Int32
sub32 a b = (a + modulus - b) % modulus

abbrev pub mul32 : Int32 → Int32 → Int32
mul32 a b = (a * b) % modulus

-- The signed orders: flipping the sign bit makes them the orders of the patterns.
abbrev pub lt32 : Int32 → Int32 → Bool
lt32 a b = ltb ((a + half) % modulus) ((b + half) % modulus)

abbrev pub le32 : Int32 → Int32 → Bool
le32 a b = leb ((a + half) % modulus) ((b + half) % modulus)

-- The integer that a pattern stands for.
abbrev pub signed : Int32 → ℤ
signed a = if ltb a half then pos a else neg_ℕ (modulus - a)
