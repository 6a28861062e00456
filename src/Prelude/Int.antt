-- ===== src/Prelude/Int.antt =====
-- Signed integers over the native numbers, for the C++ `int` and `int32_t` fields.
use Prim.Native.Nat.{ℕ, zero, suc, ◌+◌, ◌-◌, ◌/◌, ◌%◌, ◌^◌, ◌≤◌, ◌<◌}
use mathlib.Core.Option.{Option, none, some}
use mathlib.Core.Bool.{Bool, true, false, ◌&&◌}
use Prim.Native.Nat.{compare, Ordering}
use tzrpc.Prelude.Tests.{if◌then◌else◌}

-- `negsuc n` is -(n + 1).
pub data ℤ : Type 0 where
  pos : ℕ → ℤ
  negsuc : ℕ → ℤ

abbrev pub pos_part : ℤ → ℕ
pos_part (pos n) = n
pos_part (negsuc n) = 0

abbrev pub neg_part : ℤ → ℕ
neg_part (pos n) = 0
neg_part (negsuc n) = suc n

infix 50 ◌≤ℤ◌ ◌<ℤ◌
abbrev pub ◌≤ℤ◌ : ℤ → ℤ → Type 0
a ≤ℤ b = pos_part a + neg_part b ≤ pos_part b + neg_part a

abbrev pub ◌<ℤ◌ : ℤ → ℤ → Type 0
a <ℤ b = pos_part a + neg_part b < pos_part b + neg_part a

abbrev pub ltb_ℤ : ℤ → ℤ → Bool
ltb_ℤ a b = elim (compare (pos_part a + neg_part b) (pos_part b + neg_part a)) [
  | Ordering.lt ↦ true
  | _ ↦ false
]

abbrev pub leb_ℤ : ℤ → ℤ → Bool
leb_ℤ a b = elim (compare (pos_part a + neg_part b) (pos_part b + neg_part a)) [
  | Ordering.gt ↦ false
  | _ ↦ true
]

abbrev pub eqb_ℤ : ℤ → ℤ → Bool
eqb_ℤ a b = elim (compare (pos_part a + neg_part b) (pos_part b + neg_part a)) [
  | Ordering.eq ↦ true
  | _ ↦ false
]

-- a - b, as an integer.
abbrev pub sub_ℕ : ℕ → ℕ → ℤ
sub_ℕ a b = elim (compare a b) [ Ordering.lt ↦ negsuc (b - a - 1) | _ ↦ pos (a - b) ]

infixl 65 ◌+ℤ◌
unfoldable pub ◌+ℤ◌ : ℤ → ℤ → ℤ
a +ℤ b = sub_ℕ (pos_part a + pos_part b) (neg_part a + neg_part b)

-- What an int of 32 bits holds of an unsigned number.
unfoldable pub to_int : ℕ → ℤ
to_int n = sub_ℕ ((n + 2 ^ 31) % 2 ^ 32) (2 ^ 31)

-- The sum of two ints of 32 bits; `none` is an overflow, whose behaviour is undefined.
unfoldable pub add_int : ℤ → ℤ → Option ℤ
unfolding ◌+ℤ◌
add_int a b =
    if leb_ℤ (negsuc (2 ^ 31 - 1)) (a +ℤ b) && leb_ℤ (a +ℤ b) (pos (2 ^ 31 - 1))
    then some (a +ℤ b)
    else none

abbrev pub neg_ℕ : ℕ → ℤ
neg_ℕ zero = pos 0
neg_ℕ (suc n) = negsuc n

-- The division of C++, which truncates; `none` is a division by zero.
unfoldable pub div_ℤ : ℤ → ℤ → Option ℤ
div_ℤ a (pos zero) = none
div_ℤ (pos m) (pos (suc n)) = some (pos (m / suc n))
div_ℤ (negsuc m) (pos (suc n)) = some (neg_ℕ (suc m / suc n))
div_ℤ (pos m) (negsuc n) = some (neg_ℕ (m / suc n))
div_ℤ (negsuc m) (negsuc n) = some (pos (suc m / suc n))
