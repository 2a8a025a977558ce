-- ===== src/Prelude/Bits/Fields.antt =====
-- `&` with a shifted mask, `|` of disjoint fields, and rounding to a multiple of a power of two, as
-- arithmetic.
use Prim.Native.Nat.{ℕ, zero, suc, ◌+◌, ◌*◌, ◌/◌, ◌%◌, ◌^◌, ◌<◌, bit_and, bit_or}
use mathlib.Core.Path.{◌≡◌, sym, ap, ◌∙◌}
use native.Mathlib.Nat.{div-div-eq-div-mul}
use native.Mathlib.Omega.{arith}
use drbd_utils.Prelude.Bits.{
  bit_and_step, bit_or_step, bit_ext, bit-bit_or, bit-zero, two-pow-suc, bit_and_low,
}

mul-two-pow-suc : (q k : ℕ) → q * 2 ^ suc k ≡ 2 * (q * 2 ^ k)
mul-two-pow-suc q k = omega (arith, ap (λ (t : ℕ). q * t) (two-pow-suc k))

div-two-pow-suc : (a k : ℕ) → a / 2 / 2 ^ k ≡ a / 2 ^ suc k
div-two-pow-suc a k = div-div-eq-div-mul a 2 (2 ^ k) ∙ ap (λ (t : ℕ). a / t) (sym (two-pow-suc k))

pub bit_and_shifted : (k a m : ℕ) → bit_and a (m * 2 ^ k) ≡ bit_and (a / 2 ^ k) m * 2 ^ k
bit_and_shifted zero a m =
    let e : m * 2 ^ 0 ≡ m = omega arith in
    let f : a / 2 ^ 0 ≡ a = omega arith in rw (e, f) (omega arith)
bit_and_shifted (suc k) a m =
    let e = mul-two-pow-suc m k in
    let half : m * 2 ^ suc k / 2 ≡ m * 2 ^ k = omega arith in
    let even : m * 2 ^ suc k % 2 ≡ 0 = omega arith in
    rw (bit_and_step a (m * 2 ^ suc k), half, even, bit_and_shifted k (a / 2) m, div-two-pow-suc)
      (omega (arith, mul-two-pow-suc (bit_and (a / 2 ^ suc k) m) k))

-- One byte of a word, kept in its place by the mask.
pub bit_and_byte : (k a : ℕ) → bit_and a (255 * 2 ^ k) ≡ a / 2 ^ k % 256 * 2 ^ k
bit_and_byte k a = rw (bit_and_shifted k a 255, bit_and_low 8 (a / 2 ^ k))

pub bit_or-zero : (a : ℕ) → bit_or a 0 ≡ a
bit_or-zero a = bit_ext _ _ (λ k. rw (bit-bit_or, bit-zero) (omega arith))

pub bit_or_fields : (k q r : ℕ) → r < 2 ^ k → bit_or (q * 2 ^ k) r ≡ q * 2 ^ k + r
bit_or_fields zero q r fits =
    let e : q * 2 ^ 0 ≡ q = omega arith in
    let f : r ≡ 0 = omega arith in rw (e, f, bit_or-zero) (omega arith)
bit_or_fields (suc k) q r fits = omega (
  arith,
  bit_or_step (q * 2 ^ suc k) r,
  mul-two-pow-suc q k,
  ap (λ (t : ℕ). bit_or t (r / 2))
      (let h : q * 2 ^ suc k / 2 ≡ q * 2 ^ k = omega (arith, mul-two-pow-suc q k) in h),
  bit_or_fields k q (r / 2) (omega (arith, two-pow-suc k)),
)
