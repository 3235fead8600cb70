-- ===== src/Prelude/Int.antt =====
-- Go's `int` and `uint`, both of 64 bits: signed integers over the native numbers, and the
-- conversions between the two types.
use Prim.Native.Nat.{ℕ, suc, ◌+◌, ◌-◌, ◌^◌, ◌≤◌}
use mathlib.Core.Path.{◌≡◌}
use mathlib.Core.Bool.{Bool, true, false}
use native.Mathlib.Omega.{arith}
use migrate.Prelude.Tests.{ltb, leb, ◌==◌, if◌then◌else◌}

-- `negsuc n` is -(n + 1).
pub data ℤ : Type 0 where
  pos : ℕ → ℤ
  negsuc : ℕ → ℤ

abbrev pub pos_part : ℤ → ℕ
pos_part (pos n) = n
pos_part (negsuc n) = 0

abbrev pub neg_part : ℤ → ℕ
neg_part (pos n) = 0
neg_part (negsuc n) = suc n

-- a - b, as an integer.
abbrev pub sub_ℕ : ℕ → ℕ → ℤ
sub_ℕ a b = if leb b a then pos (a - b) else negsuc (b - a - 1)

infixl 65 ◌-ℤ◌
unfoldable pub ◌-ℤ◌ : ℤ → ℤ → ℤ
a -ℤ b = sub_ℕ (pos_part a + neg_part b) (neg_part a + pos_part b)

abbrev pub ltb_ℤ : ℤ → ℤ → Bool
ltb_ℤ (pos a) (pos b) = ltb a b
ltb_ℤ (pos a) (negsuc b) = false
ltb_ℤ (negsuc a) (pos b) = true
ltb_ℤ (negsuc a) (negsuc b) = ltb b a

abbrev pub eqb_ℤ : ℤ → ℤ → Bool
eqb_ℤ (pos a) (pos b) = a == b
eqb_ℤ (pos a) (negsuc b) = false
eqb_ℤ (negsuc a) (pos b) = false
eqb_ℤ (negsuc a) (negsuc b) = a == b

abbrev pub minus_one : ℤ
minus_one = negsuc 0

abbrev pub max_uint : ℕ
max_uint = 2 ^ 64 - 1

abbrev pub max_int : ℕ
max_int = 2 ^ 63 - 1

-- The conversion `int(v)` of a `uint`: two's complement.
unfoldable pub to_int : ℕ → ℤ
to_int v = if leb v max_int then pos v else negsuc (max_uint - v)

-- `-n` of an `int`; the least integer is its own negation.
unfoldable pub neg_int : ℤ → ℤ
neg_int (pos n) = pos 0 -ℤ pos n
neg_int (negsuc n) = if n == max_int then negsuc n else pos (suc n)

pub to_int_small : (v : ℕ) → v ≤ max_int → to_int v ≡ pos v
unfolding to_int
to_int_small v h = ground arith
