-- ===== src/Prelude/Bits.antt =====
-- Facts about `&`, `|` and `^` at variables, from the digits that the native operations stand for:
-- `bit k a` is binary digit `k` of `a`.
pub mod Fields
use Prim.Native.Nat.{ℕ, zero, suc, ◌+◌, ◌-◌, ◌*◌, ◌/◌, ◌%◌, ◌^◌, ◌≤◌, ◌<◌, min, max}
use Prim.Native.Nat.{bit_and, bit_or, bit_xor, digits, bitwise, differ}
use Prim.Native.Nat.{bit_and-bitwise, bit_or-bitwise, bit_xor-bitwise}
use mathlib.Core.Path.{◌≡◌, refl, sym, ap, ◌∙◌}
use mathlib.Core.Bool.{Bool, true, false}
use native.Mathlib.Nat.{pow-suc, one-le-pow, mod-eq_of_lt, div-add-mod, div-div-eq-div-mul}
use native.Mathlib.Omega.{arith}
use drbd_utils.Prelude.Tests.{ltb, ◌==◌, if◌then◌else◌}

-- An operation on digits: `right` is what it does once the first number has run out, `op` what it
-- does to two digits.
module _ (right : ℕ → ℕ) (op : ℕ → ℕ → ℕ) where
  -- Fuel beyond the first number changes nothing.
  enough_fuel :
      (x y more less : ℕ)
      → x ≤ more
      → x ≤ less
      → digits right op more x y ≡ digits right op less x y
  enough_fuel zero y zero zero p q = refl
  enough_fuel zero y zero (suc less) p q = refl
  enough_fuel zero y (suc more) zero p q = refl
  enough_fuel zero y (suc more) (suc less) p q = refl
  enough_fuel (suc x) y zero less p q = absurd (omega arith)
  enough_fuel (suc x) y (suc more) zero p q = absurd (omega arith)
  enough_fuel (suc x) y (suc more) (suc less) p q =
      let halves = enough_fuel (suc x / 2) (y / 2) more less in
      omega (arith, halves (omega arith) (omega arith))

  lowest_digit :
      (x y : ℕ)
      → bitwise right op (suc x) y
        ≡ op (suc x % 2) (y % 2) + 2 * bitwise right op (suc x / 2) (y / 2)
  lowest_digit x y =
      let halves = enough_fuel (suc x / 2) (y / 2) x (suc x / 2) in
      omega (arith, halves (omega arith) (omega arith))

pub bit_and_step : (x y : ℕ) → bit_and x y ≡ min (x % 2) (y % 2) + 2 * bit_and (x / 2) (y / 2)
bit_and_step zero y = simp bit_and-bitwise (omega arith)
bit_and_step (suc x) y = simp bit_and-bitwise (lowest_digit (λ _. 0) min x y)

pub bit_or_step : (x y : ℕ) → bit_or x y ≡ max (x % 2) (y % 2) + 2 * bit_or (x / 2) (y / 2)
bit_or_step zero y = simp bit_or-bitwise (omega arith)
bit_or_step (suc x) y = simp bit_or-bitwise (lowest_digit (λ t. t) max x y)

differ-mod : (x y : ℕ) → x < 2 → y < 2 → differ x y ≡ (x + y) % 2
differ-mod zero y p q = omega arith
differ-mod (suc zero) zero p q = refl
differ-mod (suc zero) (suc zero) p q = refl
differ-mod (suc zero) (suc (suc y)) p q = absurd (omega arith)
differ-mod (suc (suc x)) y p q = absurd (omega arith)

pub bit_xor_step : (a b : ℕ) → bit_xor a b ≡ bit_xor (a / 2) (b / 2) * 2 + (a + b) % 2
bit_xor_step zero b = simp bit_xor-bitwise (omega arith)
bit_xor_step (suc a) b = simp bit_xor-bitwise (
    omega (
      arith,
      lowest_digit (λ t. t) differ a b,
      differ-mod (suc a % 2) (b % 2) (omega arith) (omega arith),
    ))

unfoldable pub bit : ℕ → ℕ → ℕ
bit zero a = a % 2
bit (suc k) a = bit k (a / 2)

pub bit-lt : (k a : ℕ) → bit k a < 2
unfolding bit
bit-lt zero a = omega arith
bit-lt (suc k) a = bit-lt k (a / 2)

pub bit-bit_and : (k a b : ℕ) → bit k (bit_and a b) ≡ min (bit k a) (bit k b)
unfolding bit
bit-bit_and zero a b = omega (arith, bit_and_step a b)
bit-bit_and (suc k) a b =
    let e : bit_and a b / 2 ≡ bit_and (a / 2) (b / 2) = omega (arith, bit_and_step a b) in
    rw e (bit-bit_and k (a / 2) (b / 2))

pub bit-bit_or : (k a b : ℕ) → bit k (bit_or a b) ≡ max (bit k a) (bit k b)
unfolding bit
bit-bit_or zero a b = omega (arith, bit_or_step a b)
bit-bit_or (suc k) a b =
    let e : bit_or a b / 2 ≡ bit_or (a / 2) (b / 2) = omega (arith, bit_or_step a b) in
    rw e (bit-bit_or k (a / 2) (b / 2))

pub bit-bit_xor : (k a b : ℕ) → bit k (bit_xor a b) ≡ (bit k a + bit k b) % 2
unfolding bit
bit-bit_xor zero a b = omega (arith, bit_xor_step a b)
bit-bit_xor (suc k) a b =
    let e : bit_xor a b / 2 ≡ bit_xor (a / 2) (b / 2) = omega (arith, bit_xor_step a b) in
    rw e (bit-bit_xor k (a / 2) (b / 2))

-- Two numbers with the same digits are equal.
bit_ext_fuel : (n a b : ℕ) → a ≤ n → b ≤ n → ((k : ℕ) → bit k a ≡ bit k b) → a ≡ b
unfolding bit
bit_ext_fuel zero a b p q h = omega arith
bit_ext_fuel (suc n) a b p q h =
    let half : a / 2 ≡ b / 2 =
      bit_ext_fuel n (a / 2) (b / 2) (omega arith) (omega arith) (λ k. h (suc k)) in
    omega (arith, h 0)

pub bit_ext : (a b : ℕ) → ((k : ℕ) → bit k a ≡ bit k b) → a ≡ b
bit_ext a b h = bit_ext_fuel (a + b) a b (omega arith) (omega arith) h

pub bit-zero : (k : ℕ) → bit k 0 ≡ 0
unfolding bit
bit-zero zero = refl
bit-zero (suc k) = bit-zero k

pub two-pow-suc : (n : ℕ) → 2 ^ suc n ≡ 2 * 2 ^ n
two-pow-suc n = omega (arith, pow-suc 2 n)

pub bit-pow : (k n : ℕ) → bit k (2 ^ n) ≡ (if k == n then 1 else 0)
unfolding bit
bit-pow zero zero = refl
bit-pow zero (suc n) = ground (arith, two-pow-suc n)
bit-pow (suc k) zero = rw bit-zero (ground arith)
bit-pow (suc k) (suc n) =
    let e : 2 ^ suc n / 2 ≡ 2 ^ n = omega (arith, two-pow-suc n) in
    rw (e, bit-pow k n) (ground arith)

pub bit-ones : (k n : ℕ) → bit k (2 ^ n - 1) ≡ (if ltb k n then 1 else 0)
unfolding bit
bit-ones k zero = rw bit-zero (ground arith)
bit-ones zero (suc n) = ground (arith, two-pow-suc n, one-le-pow n 2)
bit-ones (suc k) (suc n) =
    let e : (2 ^ suc n - 1) / 2 ≡ 2 ^ n - 1 = omega (arith, two-pow-suc n, one-le-pow n 2) in
    rw (e, bit-ones k n) (ground arith)

-- A number below 2 ^ n has no digit from n on, and conversely.
pub bit_of_lt : (n k a : ℕ) → a < 2 ^ n → n ≤ k → bit k a ≡ 0
unfolding bit
bit_of_lt zero k a h p = let e : a ≡ 0 = omega arith in rw (e, bit-zero)
bit_of_lt (suc n) zero a h p = absurd (omega arith)
bit_of_lt (suc n) (suc k) a h p = bit_of_lt n k (a / 2) (omega (arith, two-pow-suc n)) (omega arith)

pub lt_of_bits : (n a : ℕ) → ((k : ℕ) → n ≤ k → bit k a ≡ 0) → a < 2 ^ n
unfolding bit
lt_of_bits zero a h =
    let e : a ≡ 0 = bit_ext a 0 (λ k. h k (omega arith) ∙ sym (bit-zero k)) in omega arith
lt_of_bits (suc n) a h =
    omega (arith, two-pow-suc n, lt_of_bits n (a / 2) (λ k p. h (suc k) (omega arith)))

pub bit_and_low : (n a : ℕ) → bit_and a (2 ^ n - 1) ≡ a % 2 ^ n
bit_and_low zero a =
    bit_ext _ _
      λ k. let e : a % 2 ^ 0 ≡ 0 = omega arith in rw (e, bit-bit_and, bit-zero) (omega arith)
bit_and_low (suc n) a =
    let half : (2 ^ suc n - 1) / 2 ≡ 2 ^ n - 1 = omega (arith, two-pow-suc n, one-le-pow n 2) in
    let d : a / 2 / 2 ^ n ≡ a / 2 ^ suc n =
      div-div-eq-div-mul a 2 (2 ^ n) ∙ ap (λ (t : ℕ). a / t) (sym (two-pow-suc n)) in
    let q = a / 2 ^ suc n in
    let whole = div-add-mod a (2 ^ suc n) in
    let part : 2 ^ n * q + a / 2 % 2 ^ n ≡ a / 2 = rw d at (div-add-mod (a / 2) (2 ^ n)) in
    let m : 2 ^ suc n * q ≡ 2 * (2 ^ n * q) =
      omega (arith, ap (λ (t : ℕ). t * q) (two-pow-suc n)) in
    let odd : (2 ^ suc n - 1) % 2 ≡ 1 = omega (arith, two-pow-suc n, one-le-pow n 2) in
    rw (bit_and_step, half, bit_and_low n (a / 2), odd) (omega (arith, m, whole, part))

pub bit_and_high :
    (n k a : ℕ) → a < 2 ^ (n + k) → bit_and a ((2 ^ n - 1) * 2 ^ k) ≡ a / 2 ^ k * 2 ^ k
bit_and_high n zero a h =
    let e : (2 ^ n - 1) * 2 ^ 0 ≡ 2 ^ n - 1 = omega arith in
    let f : n + 0 ≡ n = omega arith in
    let g : a < 2 ^ n = rw f at h in rw (e, bit_and_low, mod-eq_of_lt g) (omega arith)
bit_and_high n (suc k) a h =
    let f : n + suc k ≡ suc (n + k) = omega arith in
    let g : a < 2 * 2 ^ (n + k) = rw (f, two-pow-suc) at h in
    let half = bit_and_high n k (a / 2) (omega arith) in
    let m : (2 ^ n - 1) * 2 ^ suc k ≡ 2 * ((2 ^ n - 1) * 2 ^ k) =
      omega (arith, ap (λ (t : ℕ). (2 ^ n - 1) * t) (two-pow-suc k)) in
    let m2 : (2 ^ n - 1) * 2 ^ suc k / 2 ≡ (2 ^ n - 1) * 2 ^ k = omega arith in
    let m3 : (2 ^ n - 1) * 2 ^ suc k % 2 ≡ 0 = omega arith in
    let d : a / 2 / 2 ^ k ≡ a / 2 ^ suc k =
      div-div-eq-div-mul a 2 (2 ^ k) ∙ ap (λ (t : ℕ). a / t) (sym (two-pow-suc k)) in
    let r : a / 2 ^ suc k * 2 ^ suc k ≡ 2 * (a / 2 ^ suc k * 2 ^ k) =
      omega (arith, ap (λ (t : ℕ). a / 2 ^ suc k * t) (two-pow-suc k)) in
    rw (bit_and_step, m2, m3, half, d, r) (omega arith)

pub bit-shr : (k n a : ℕ) → bit k (a / 2 ^ n) ≡ bit (n + k) a
unfolding bit
bit-shr k zero a =
    let e : a / 2 ^ 0 ≡ a = omega arith in let f : 0 + k ≡ k = omega arith in rw (e, f)
bit-shr k (suc n) a =
    let d : a / 2 / 2 ^ n ≡ a / 2 ^ suc n =
      div-div-eq-div-mul a 2 (2 ^ n) ∙ ap (λ (t : ℕ). a / t) (sym (two-pow-suc n)) in
    let f : suc n + k ≡ suc (n + k) = omega arith in rw (← d, f) (bit-shr k n (a / 2))

pub bit_and-one : (a : ℕ) → bit_and a 1 ≡ bit 0 a
unfolding bit
bit_and-one a = bit_and_low 1 a
