-- ===== src/Prelude/Int.antt =====
-- Signed integers over the native numbers, under the library's names (its ℤ stands on the unary ℕ),
-- with the C conversions and the C remainder. Sums and orders go through the two parts of an
-- integer, which are numbers that `omega` reads.
use Prim.Native.Nat.{ℕ, suc, ◌+◌, ◌-◌, ◌%◌, ◌≤◌, ◌<◌}
use mathlib.Core.Path.{◌≡◌}
use mathlib.Core.Bool.{Bool, ◌&&◌}
use native.Mathlib.Omega.{arith}
use bismark_passive.Prelude.Tests.{ltb, leb, ◌==◌, if◌then◌else◌}

-- `negsuc n` is -(n + 1).
pub data ℤ : Type 0 where
  pos : ℕ → ℤ
  negsuc : ℕ → ℤ

abbrev pub pos_part : ℤ → ℕ
pos_part (pos n) = n
pos_part (negsuc n) = 0

abbrev pub neg_part : ℤ → ℕ
neg_part (pos n) = 0
neg_part (negsuc n) = suc n

-- a - b, as an integer.
abbrev pub sub_ℕ : ℕ → ℕ → ℤ
sub_ℕ a b = if leb b a then pos (a - b) else negsuc (b - a - 1)

infixl 65 ◌+ℤ◌ ◌-ℤ◌
infix 50 ◌≤ℤ◌ ◌<ℤ◌
unfoldable pub ◌+ℤ◌ : ℤ → ℤ → ℤ
a +ℤ b = sub_ℕ (pos_part a + pos_part b) (neg_part a + neg_part b)

unfoldable pub ◌-ℤ◌ : ℤ → ℤ → ℤ
a -ℤ b = sub_ℕ (pos_part a + neg_part b) (neg_part a + pos_part b)

abbrev pub ◌≤ℤ◌ : ℤ → ℤ → Type 0
a ≤ℤ b = pos_part a + neg_part b ≤ pos_part b + neg_part a

abbrev pub ◌<ℤ◌ : ℤ → ℤ → Type 0
a <ℤ b = pos_part a + neg_part b < pos_part b + neg_part a

abbrev pub ltb_ℤ : ℤ → ℤ → Bool
ltb_ℤ a b = ltb (pos_part a + neg_part b) (pos_part b + neg_part a)

pub +ℤ_parts :
    (a b : ℤ)
    → pos_part (a +ℤ b) + neg_part a + neg_part b ≡ neg_part (a +ℤ b) + pos_part a + pos_part b
unfolding ◌+ℤ◌
+ℤ_parts a b = ground arith

pub -ℤ_parts :
    (a b : ℤ)
    → pos_part (a -ℤ b) + neg_part a + pos_part b ≡ neg_part (a -ℤ b) + pos_part a + neg_part b
unfolding ◌-ℤ◌
-ℤ_parts a b = ground arith

pub eq_of_parts : (a b : ℤ) → pos_part a + neg_part b ≡ pos_part b + neg_part a → a ≡ b
eq_of_parts a b h = ground arith

pub ruleset int_laws = (arith, +ℤ_parts, -ℤ_parts, eq_of_parts)

-- The low bits of an integer: its residue modulo `m`, for `0 < m`.
unfoldable pub low_bits : ℕ → ℤ → ℕ
low_bits m (pos n) = n % m
low_bits m (negsuc n) = m - 1 - n % m

-- The conversions to `uint16_t`, `int16_t` and `int32_t`. The first is defined by C, the others by
-- the compiler, which keeps the low bits.
unfoldable pub to_uint16 : ℤ → ℕ
unfolding low_bits
to_uint16 z = low_bits 65536 z

unfoldable pub to_int16 : ℤ → ℤ
unfolding low_bits
to_int16 z = let w = low_bits 65536 z in if ltb w 32768 then pos w else negsuc (65535 - w)

unfoldable pub to_int32 : ℤ → ℤ
unfolding low_bits
to_int32 z =
    let w = low_bits 4294967296 z in if ltb w 2147483648 then pos w else negsuc (4294967295 - w)

abbrev pub FitsInt16 : ℤ → Type 0
FitsInt16 z = (negsuc 32767 ≤ℤ z) × (z ≤ℤ pos 32767)

abbrev pub FitsInt32 : ℤ → Type 0
FitsInt32 z = (negsuc 2147483647 ≤ℤ z) × (z ≤ℤ pos 2147483647)

pub to_int16_exact : (z : ℤ) → FitsInt16 z → to_int16 z ≡ z
unfolding to_int16
to_int16_exact (pos n) h = ground arith
to_int16_exact (negsuc n) h = ground arith

pub to_int16-FitsInt16 : (z : ℤ) → FitsInt16 (to_int16 z)
unfolding to_int16
to_int16-FitsInt16 (pos n) = ground arith
to_int16-FitsInt16 (negsuc n) = ground arith

pub to_int32_exact : (z : ℤ) → FitsInt32 z → to_int32 z ≡ z
unfolding to_int32
to_int32_exact (pos n) h = ground arith
to_int32_exact (negsuc n) h = ground arith

-- C's `z % d` for `0 < d`: the remainder has the sign of `z`.
unfoldable pub c_rem : ℤ → ℕ → ℤ
c_rem (pos n) d = pos (n % d)
c_rem (negsuc n) d = sub_ℕ 0 (suc n % d)

-- `==` on two `int`s
abbrev pub eqb_ℤ : ℤ → ℤ → Bool
eqb_ℤ a b = pos_part a == pos_part b && neg_part a == neg_part b
