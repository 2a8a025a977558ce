-- ===== src/Meta/Flags.antt =====
-- Single flags of a uint32_t, by bit number: `x & flag`, `x |= flag`, `x &= ~flag`.
pub mod Laws
use drbd_utils.Prelude.{ℕ, ◌-◌, ◌^◌, Bool, not, bit_and, bit_or, bit_xor, ◌==◌}
use drbd_utils.Headers.{flag}

unfoldable pub has : ℕ → ℕ → Bool
has x n = not (bit_and x (flag n) == 0)

unfoldable pub raise : ℕ → ℕ → ℕ
raise x n = bit_or x (flag n)

unfoldable pub lower : ℕ → ℕ → ℕ
lower x n = bit_and x (bit_xor (flag n) (2 ^ 32 - 1))
