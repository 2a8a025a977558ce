-- ===== src/Prelude/Words.antt =====
-- The fixed widths of C, and `int` values as signed numbers.
use Prim.Native.Nat.{ℕ, suc, ◌+◌, ◌-◌, ◌%◌, ◌^◌, ◌<◌}
use mathlib.Core.Path.{◌≡◌}
use mathlib.Core.Bool.{Bool, false}
use native.Mathlib.Omega.{arith}
use drbd_utils.Prelude.Tests.{ltb, leb, ◌==◌, if◌then◌else◌}

abbrev pub u32 : ℕ → ℕ
u32 n = n % 2 ^ 32

abbrev pub u64 : ℕ → ℕ
u64 n = n % 2 ^ 64

-- `negsuc n` is -(n + 1).
pub data ℤ : Type 0 where
  pos : ℕ → ℤ
  negsuc : ℕ → ℤ

abbrev pub eq_ℤ : ℤ → ℤ → Bool
eq_ℤ (pos a) (pos b) = a == b
eq_ℤ (pos a) (negsuc b) = false
eq_ℤ (negsuc a) (pos b) = false
eq_ℤ (negsuc a) (negsuc b) = a == b

-- a - b, as an integer.
abbrev pub sub_ℕ : ℕ → ℕ → ℤ
sub_ℕ a b = if leb b a then pos (a - b) else negsuc (b - a - 1)

-- An `int32_t` from its bit pattern, and back.
abbrev pub s32 : ℕ → ℤ
s32 w = if ltb w (2 ^ 31) then pos w else negsuc (2 ^ 32 - w - 1)

abbrev pub bits32 : ℤ → ℕ
bits32 (pos n) = n % 2 ^ 32
bits32 (negsuc n) = 2 ^ 32 - 1 - n % 2 ^ 32

-- The store of a wider signed value into an `int32_t`.
abbrev pub store32 : ℤ → ℤ
store32 z = s32 (bits32 z)

abbrev pub IsS32 : ℤ → Type 0
IsS32 (pos n) = n < 2 ^ 31
IsS32 (negsuc n) = n < 2 ^ 31

pub s32-bits32 : (z : ℤ) → IsS32 z → s32 (bits32 z) ≡ z
s32-bits32 (pos n) h = ground arith
s32-bits32 (negsuc n) h = ground arith

pub bits32-lt : (z : ℤ) → bits32 z < 2 ^ 32
bits32-lt (pos n) = omega arith
bits32-lt (negsuc n) = omega arith

pub bits32-s32 : (w : ℕ) → w < 2 ^ 32 → bits32 (s32 w) ≡ w
bits32-s32 w h = ground arith

abbrev pub pos_part : ℤ → ℕ
pos_part (pos n) = n
pos_part (negsuc n) = 0

abbrev pub neg_part : ℤ → ℕ
neg_part (pos n) = 0
neg_part (negsuc n) = suc n

infixl 65 ◌+ℤ◌
abbrev pub ◌+ℤ◌ : ℤ → ℤ → ℤ
a +ℤ b = sub_ℕ (pos_part a + pos_part b) (neg_part a + neg_part b)

unfoldable pub neg_ℤ : ℤ → ℤ
neg_ℤ a = sub_ℕ (neg_part a) (pos_part a)

-- A signed value converted to uint64_t, and the int64_t with that pattern.
abbrev pub bits64 : ℤ → ℕ
bits64 (pos n) = n % 2 ^ 64
bits64 (negsuc n) = 2 ^ 64 - 1 - n % 2 ^ 64

abbrev pub s64 : ℕ → ℤ
s64 w = if ltb w (2 ^ 63) then pos w else negsuc (2 ^ 64 - w - 1)
