-- ===== src/Base/Int.antt =====
-- Signed integers over the native numbers, and the wrap-around of int64.
use Prim.Native.Nat.{ℕ, suc, ◌+◌, ◌-◌, ◌*◌, ◌%◌, ◌^◌, ◌≤◌, ◌<◌}
use mathlib.Core.Path.{◌≡◌}
use mathlib.Core.Bool.{Bool}
use native.Mathlib.Omega.{arith}
use go_moa.Base.Tests.{ltb, leb, if◌then◌else◌}

-- `negsuc n` is -(n + 1).
pub data ℤ : Type 0 where
  pos : ℕ → ℤ
  negsuc : ℕ → ℤ

abbrev pub pos_part : ℤ → ℕ
pos_part (pos n) = n
pos_part (negsuc n) = 0

abbrev pub neg_part : ℤ → ℕ
neg_part (pos n) = 0
neg_part (negsuc n) = suc n

abbrev pub leb_ℤ : ℤ → ℤ → Bool
leb_ℤ a b = leb (pos_part a + neg_part b) (pos_part b + neg_part a)

infix 50 ◌≤ℤ◌
abbrev pub ◌≤ℤ◌ : ℤ → ℤ → Type 0
a ≤ℤ b = pos_part a + neg_part b ≤ pos_part b + neg_part a

-- a - b, as an integer.
abbrev pub sub_ℕ : ℕ → ℕ → ℤ
sub_ℕ a b = if leb b a then pos (a - b) else negsuc (b - a - 1)

-- The residue of an integer, and the int64 that has it.
unfoldable pub residue : ℤ → ℕ
residue (pos n) = n % 2 ^ 64
residue (negsuc n) = 2 ^ 64 - 1 - n % 2 ^ 64

unfoldable pub wrap_i64 : ℤ → ℤ
unfolding residue
wrap_i64 a = if ltb (residue a) (2 ^ 63) then pos (residue a) else negsuc (2 ^ 64 - 1 - residue a)

-- Subtraction and multiplication of int64.
unfoldable pub sub_i64 : ℤ → ℤ → ℤ
unfolding wrap_i64
sub_i64 a b = wrap_i64 (sub_ℕ (pos_part a + neg_part b) (neg_part a + pos_part b))

unfoldable pub mul_i64 : ℤ → ℕ → ℤ
unfolding wrap_i64
mul_i64 a k = wrap_i64 (sub_ℕ (pos_part a * k) (neg_part a * k))

-- A product that fits is the product.
pub mul_i64_fits : (n k : ℕ) → n * k < 2 ^ 63 → mul_i64 (pos n) k ≡ pos (n * k)
unfolding mul_i64
mul_i64_fits n k h = ground arith

-- The product of a number below 2 ^ 64 that does not fit is negative.
pub mul_i64_overflow :
    (n k : ℕ) → 2 ^ 63 ≤ n * k → n * k < 2 ^ 64 → mul_i64 (pos n) k ≡ negsuc (2 ^ 64 - 1 - n * k)
unfolding mul_i64
mul_i64_overflow n k h h' = ground arith
