-- ===== src/Tool/Crc/Bitwise.antt =====
-- crc32c() of user/v9/drbdtool_common.c against the division by its polynomial, bit by bit.
use drbd_utils.Prelude.{
  ℕ, zero, suc, ◌+◌, ◌*◌, ◌/◌, ◌%◌, ◌<◌, ◌^◌, bit_and, bit_xor, ◌≡◌, refl, sym, ap, ◌∙◌, List, [],
  ◌∷◌, if◌then◌else◌, ◌==◌, arith,
}
use native.Mathlib.Nat.{div-add-mod, div-div-eq-div-mul, mul_assoc}
use drbd_utils.Prelude.Bits.{
  bit-shr, bit_of_lt, bit-lt, bit-zero, two-pow-suc, bit_ext, bit-bit_xor, bit_xor_step,
  bit_and_low,
}
use drbd_utils.Tool.Crc.{crc32c_table, entry, crc32c}

-- The polynomial of CRC-32C, with its bits reversed.
abbrev pub polynomial : ℕ
polynomial = 0x82F63B78

-- One bit of the division
unfoldable pub divide_bit : ℕ → ℕ
divide_bit crc = bit_xor (crc / 2) (if crc % 2 == 1 then polynomial else 0)

abbrev pub divide_bits : ℕ → ℕ → ℕ
divide_bits zero crc = crc
divide_bits (suc n) crc = divide_bits n (divide_bit crc)

abbrev pub AllBytes : List ℕ → Type 0
AllBytes [] = Unit
AllBytes (byte ∷ bytes) = (byte < 256) × AllBytes bytes

-- The checksum without a table
abbrev pub crc_by_bits : ℕ → List ℕ → ℕ
crc_by_bits crc [] = crc
crc_by_bits crc (byte ∷ bytes) = crc_by_bits (divide_bits 8 (bit_xor crc byte)) bytes

abbrev divided : ℕ → ℕ → List ℕ
divided i zero = []
divided i (suc n) = divide_bits 8 i ∷ divided (suc i) n

table_divided : crc32c_table ≡ divided 0 256
unfolding crc32c_table divide_bit
table_divided = refl

entry-divided : (n s i : ℕ) → i < n → entry (divided s n) i ≡ divide_bits 8 (s + i)
unfolding entry
entry-divided zero s i lt = absurd (omega arith)
entry-divided (suc n) s zero lt = ap (divide_bits 8) (omega arith)
entry-divided (suc n) s (suc i) lt =
    entry-divided n (suc s) i (omega arith) ∙ ap (divide_bits 8) (omega arith)

xor_assoc : (a b c : ℕ) → bit_xor (bit_xor a b) c ≡ bit_xor a (bit_xor b c)
xor_assoc a b c = bit_ext (bit_xor (bit_xor a b) c) (bit_xor a (bit_xor b c)) (λ k.
    rw
      (
        bit-bit_xor k (bit_xor a b) c,
        bit-bit_xor k a b,
        bit-bit_xor k a (bit_xor b c),
        bit-bit_xor k b c,
      )
      (omega arith))

xor_comm : (a b : ℕ) → bit_xor a b ≡ bit_xor b a
xor_comm a b =
    bit_ext (bit_xor a b) (bit_xor b a)
      (λ k. rw (bit-bit_xor k a b, bit-bit_xor k b a) (omega arith))

-- A step of the division leaves what stands above its first eight bits to the end.
divide_bit_above : (x m : ℕ) → divide_bit (bit_xor x (2 * m)) ≡ bit_xor (divide_bit x) m
unfolding divide_bit
divide_bit_above x m =
    let poly = if x % 2 == 1 then polynomial else 0 in
    let half : bit_xor x (2 * m) / 2 ≡ bit_xor (x / 2) m =
      let e : 2 * m / 2 ≡ m = omega arith in
      let s = rw e at (bit_xor_step x (2 * m)) in omega (arith, s) in
    let low : bit_xor x (2 * m) % 2 ≡ x % 2 = omega (arith, bit_xor_step x (2 * m)) in
    rw (half, low)
      (xor_assoc (x / 2) m poly
        ∙ ap (bit_xor (x / 2)) (xor_comm m poly)
        ∙ sym (xor_assoc (x / 2) poly m))

divide_bits_above :
    (n x m : ℕ) → divide_bits n (bit_xor x (2 ^ n * m)) ≡ bit_xor (divide_bits n x) m
divide_bits_above zero x m = ap (bit_xor x) (omega arith)
divide_bits_above (suc n) x m =
    let e : 2 ^ suc n * m ≡ 2 * (2 ^ n * m) =
      omega (arith, ap (λ (t : ℕ). t * m) (two-pow-suc n), mul_assoc 2 (2 ^ n) m) in
    ap (divide_bits n) (ap (λ y. divide_bit (bit_xor x y)) e ∙ divide_bit_above x (2 ^ n * m))
    ∙ divide_bits_above n (divide_bit x) m

-- The parts of a number at its lowest bits.
split_low : (n x : ℕ) → x ≡ bit_xor (x % 2 ^ n) (2 ^ n * (x / 2 ^ n))
split_low zero x = bit_ext x (bit_xor (x % 2 ^ 0) (2 ^ 0 * (x / 2 ^ 0))) (λ k.
    let a : x % 2 ^ 0 ≡ 0 = omega arith in
    let b : 2 ^ 0 * (x / 2 ^ 0) ≡ x = omega arith in
    rw (a, b, bit-bit_xor k 0 x, bit-zero k) (omega (arith, bit-lt k x)))
split_low (suc n) x =
    let q = x / 2 ^ suc n in
    let d : x / 2 / 2 ^ n ≡ q =
      div-div-eq-div-mul x 2 (2 ^ n) ∙ ap (λ (t : ℕ). x / t) (sym (two-pow-suc n)) in
    let whole = div-add-mod x (2 ^ suc n) in
    let part : 2 ^ n * q + x / 2 % 2 ^ n ≡ x / 2 = rw d at (div-add-mod (x / 2) (2 ^ n)) in
    let m : 2 ^ suc n * q ≡ 2 * (2 ^ n * q) =
      omega (arith, ap (λ (t : ℕ). t * q) (two-pow-suc n)) in
    let low : x % 2 ^ suc n / 2 ≡ x / 2 % 2 ^ n = omega (arith, whole, part, m) in
    let high : 2 ^ suc n * q / 2 ≡ 2 ^ n * (x / 2 / 2 ^ n) = rw d (omega (arith, m)) in
    let rest = split_low n (x / 2) in
    rw (bit_xor_step (x % 2 ^ suc n) (2 ^ suc n * q), low, high, sym rest) (omega (arith, whole, m))

xor_high : (n x y : ℕ) → y < 2 ^ n → bit_xor x y / 2 ^ n ≡ x / 2 ^ n
xor_high n x y lt = bit_ext (bit_xor x y / 2 ^ n) (x / 2 ^ n) (λ k.
    rw
      (
        bit-shr k n (bit_xor x y),
        bit-shr k n x,
        bit-bit_xor (n + k) x y,
        bit_of_lt n (n + k) y lt (omega arith),
      )
      (omega (arith, bit-lt (n + k) x)))

entry_table : (x : ℕ) → entry crc32c_table (bit_and x 255) ≡ divide_bits 8 (x % 256)
entry_table x =
    rw (bit_and_low 8 x, table_divided)
      (entry-divided 256 0 (x % 256) (omega arith) ∙ ap (divide_bits 8) (omega arith))

-- For every start value and all bytes, crc32c(), which takes eight bits at a time from its table, is
-- the division by the polynomial 0x82F63B78 bit by bit.
pub crc32c-crc_by_bits :
    (crc : ℕ) (bytes : List ℕ) → AllBytes bytes → crc32c crc bytes ≡ crc_by_bits crc bytes
unfolding crc32c
crc32c-crc_by_bits crc [] h = refl
crc32c-crc_by_bits crc (byte ∷ bytes) (lt, h) =
    let x = bit_xor crc byte in
    let step : bit_xor (entry crc32c_table (bit_and x 255)) (crc / 256) ≡ divide_bits 8 x =
      ap (λ e. bit_xor e (crc / 256)) (entry_table x)
      ∙ ap (bit_xor (divide_bits 8 (x % 256))) (sym (xor_high 8 crc byte lt))
      ∙ sym (divide_bits_above 8 (x % 256) (x / 256))
      ∙ ap (divide_bits 8) (sym (split_low 8 x)) in
    rw step (crc32c-crc_by_bits (divide_bits 8 x) bytes h)
