-- ===== src/Endian/Laws.antt =====
-- The swaps reverse the bytes, so that swapping twice gives the word back.
use drbd_utils.Prelude.{ℕ, ◌+◌, ◌*◌, ◌/◌, ◌%◌, ◌^◌, ◌<◌, ◌≡◌, bit_and, arith}
use drbd_utils.Prelude.Bits.Fields.{bit_and_byte, bit_or_fields}
use drbd_utils.Endian.{swab16, swab32, swab64}

swab32_sum :
    (x : ℕ)
    → x < 2 ^ 32
    → swab32 x ≡ x % 256 * 2 ^ 24 + x / 2 ^ 8 % 256 * 2 ^ 16 + x / 2 ^ 16 % 256 * 2 ^ 8 + x / 2 ^ 24
unfolding swab32
swab32_sum x h =
    let a : bit_and x 0x000000ff ≡ x % 256 = omega (arith, bit_and_byte 0 x) in
    let b : bit_and x 0x0000ff00 * 2 ^ 8 ≡ x / 2 ^ 8 % 256 * 2 ^ 16 =
      omega (arith, bit_and_byte 8 x) in
    let c : bit_and x 0x00ff0000 / 2 ^ 8 ≡ x / 2 ^ 16 % 256 * 2 ^ 8 =
      omega (arith, bit_and_byte 16 x) in
    let d : bit_and x 0xff000000 / 2 ^ 24 ≡ x / 2 ^ 24 = omega (arith, bit_and_byte 24 x) in
    rw
      (
        a,
        b,
        c,
        d,
        bit_or_fields 8 (x / 2 ^ 16 % 256) (x / 2 ^ 24) (omega arith),
        bit_or_fields 16 (x / 2 ^ 8 % 256) (x / 2 ^ 16 % 256 * 2 ^ 8 + x / 2 ^ 24) (omega arith),
        bit_or_fields 24 (x % 256)
            (x / 2 ^ 8 % 256 * 2 ^ 16 + (x / 2 ^ 16 % 256 * 2 ^ 8 + x / 2 ^ 24)) (omega arith),
      )
      (omega arith)

pub swab32-lt : (x : ℕ) → swab32 x < 2 ^ 32
unfolding swab32
swab32-lt x = omega arith

-- Swapping the four bytes of a word of 32 bits twice gives the word back.
pub swab32-swab32 : (x : ℕ) → x < 2 ^ 32 → swab32 (swab32 x) ≡ x
swab32-swab32 x h = omega (arith, swab32_sum x h, swab32_sum (swab32 x) (swab32-lt x))

swab16_sum : (x : ℕ) → x < 2 ^ 16 → swab16 x ≡ x % 256 * 2 ^ 8 + x / 2 ^ 8
unfolding swab16
swab16_sum x h =
    let a : bit_and x 0x00ff ≡ x % 256 = omega (arith, bit_and_byte 0 x) in
    let b : bit_and x 0xff00 / 2 ^ 8 ≡ x / 2 ^ 8 = omega (arith, bit_and_byte 8 x) in
    rw (a, b, bit_or_fields 8 (x % 256) (x / 2 ^ 8) (omega arith)) (omega arith)

pub swab16-lt : (x : ℕ) → swab16 x < 2 ^ 16
unfolding swab16
swab16-lt x = omega arith

-- Swapping the two bytes of a word of 16 bits twice gives the word back.
pub swab16-swab16 : (x : ℕ) → x < 2 ^ 16 → swab16 (swab16 x) ≡ x
swab16-swab16 x h = omega (arith, swab16_sum x h, swab16_sum (swab16 x) (swab16-lt x))

abbrev byte : ℕ → ℕ → ℕ
byte k x = x / 2 ^ k % 256

swab64_sum :
    (x : ℕ)
    → x < 2 ^ 64
    → swab64 x
      ≡ x % 256 * 2 ^ 56
        + (byte 8 x * 2 ^ 48
            + (byte 16 x * 2 ^ 40
                + (byte 24 x * 2 ^ 32
                    + (byte 32 x * 2 ^ 24
                        + (byte 40 x * 2 ^ 16 + (byte 48 x * 2 ^ 8 + x / 2 ^ 56))))))
unfolding swab64
swab64_sum x h =
    let a : bit_and x 0x00000000000000ff ≡ x % 256 = omega (arith, bit_and_byte 0 x) in
    let b : bit_and x 0x000000000000ff00 * 2 ^ 40 ≡ byte 8 x * 2 ^ 48 =
      omega (arith, bit_and_byte 8 x) in
    let c : bit_and x 0x0000000000ff0000 * 2 ^ 24 ≡ byte 16 x * 2 ^ 40 =
      omega (arith, bit_and_byte 16 x) in
    let d : bit_and x 0x00000000ff000000 * 2 ^ 8 ≡ byte 24 x * 2 ^ 32 =
      omega (arith, bit_and_byte 24 x) in
    let e : bit_and x 0x000000ff00000000 / 2 ^ 8 ≡ byte 32 x * 2 ^ 24 =
      omega (arith, bit_and_byte 32 x) in
    let f : bit_and x 0x0000ff0000000000 / 2 ^ 24 ≡ byte 40 x * 2 ^ 16 =
      omega (arith, bit_and_byte 40 x) in
    let g : bit_and x 0x00ff000000000000 / 2 ^ 40 ≡ byte 48 x * 2 ^ 8 =
      omega (arith, bit_and_byte 48 x) in
    let i : bit_and x 0xff00000000000000 / 2 ^ 56 ≡ x / 2 ^ 56 = omega (arith, bit_and_byte 56 x) in
    let r7 = byte 48 x * 2 ^ 8 + x / 2 ^ 56 in
    let r6 = byte 40 x * 2 ^ 16 + r7 in
    let r5 = byte 32 x * 2 ^ 24 + r6 in
    let r4 = byte 24 x * 2 ^ 32 + r5 in
    let r3 = byte 16 x * 2 ^ 40 + r4 in
    let r2 = byte 8 x * 2 ^ 48 + r3 in
    rw
      (
        a,
        b,
        c,
        d,
        e,
        f,
        g,
        i,
        bit_or_fields 8 (byte 48 x) (x / 2 ^ 56) (omega arith),
        bit_or_fields 16 (byte 40 x) r7 (omega arith),
        bit_or_fields 24 (byte 32 x) r6 (omega arith),
        bit_or_fields 32 (byte 24 x) r5 (omega arith),
        bit_or_fields 40 (byte 16 x) r4 (omega arith),
        bit_or_fields 48 (byte 8 x) r3 (omega arith),
        bit_or_fields 56 (x % 256) r2 (omega arith),
      )
      (omega arith)

pub swab64-lt : (x : ℕ) → swab64 x < 2 ^ 64
unfolding swab64
swab64-lt x = omega arith

-- Swapping the eight bytes of a word of 64 bits twice gives the word back.
pub swab64-swab64 : (x : ℕ) → x < 2 ^ 64 → swab64 (swab64 x) ≡ x
swab64-swab64 x h = omega (arith, swab64_sum x h, swab64_sum (swab64 x) (swab64-lt x))
