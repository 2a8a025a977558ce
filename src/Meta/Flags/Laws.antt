-- ===== src/Meta/Flags/Laws.antt =====
-- The digits of a word after its flags are changed.
use drbd_utils.Prelude.{
  ℕ, ◌+◌, ◌-◌, ◌*◌, ◌^◌, ◌<◌, ◌≤◌, ◌≡◌, sym, ap, ◌∙◌, zero, suc, ◌/◌, true, false, not, bit_and,
  ltb, ◌==◌, ==_iff, if◌then◌else◌, Bool-cases, inl, inr, arith,
}
use drbd_utils.Prelude.Bits.{
  bit, bit-lt, bit_ext, bit-bit_and, bit-bit_or, bit-bit_xor, bit-pow, bit-ones, bit_of_lt,
  lt_of_bits, bit_and-one, bit-shr,
}
use drbd_utils.Prelude.Bits.Fields.{bit_and_shifted}
use native.Mathlib.Nat.{one-le-pow}
use drbd_utils.Headers.{flag}
use drbd_utils.Meta.Flags.{has, raise, lower}

pub bit-raise : (k x n : ℕ) → bit k (raise x n) ≡ (if k == n then 1 else bit k x)
unfolding raise
bit-raise k x n = rw (bit-bit_or, bit-pow) (ground (arith, bit-lt k x))

pub bit-lower : (k x n : ℕ) → x < 2 ^ 32 → bit k (lower x n) ≡ (if k == n then 0 else bit k x)
unfolding lower
bit-lower k x n h =
    let ones : bit k (2 ^ 32 - 1) ≡ (if ltb k 32 then 1 else 0) = bit-ones k 32 in
    rw (bit-bit_and, bit-bit_xor, bit-pow, ones) (ground (arith, bit-lt k x, bit_of_lt 32 k x))

bit_and-flag : (x n : ℕ) → bit_and x (flag n) ≡ bit n x * 2 ^ n
bit_and-flag x n =
    let e : 1 * 2 ^ n ≡ 2 ^ n = omega arith in
    let f : n + 0 ≡ n = omega arith in
    let shifted = bit_and_shifted n x 1 in
    let low : bit_and (x / 2 ^ n) 1 ≡ bit 0 (x / 2 ^ n) = bit_and-one (x / 2 ^ n) in
    let digit : bit 0 (x / 2 ^ n) ≡ bit n x = bit-shr 0 n x ∙ ap (λ (t : ℕ). bit t x) f in
    ap (bit_and x) (sym e) ∙ shifted ∙ ap (λ (t : ℕ). t * 2 ^ n) (low ∙ digit)

digit_test : (b p : ℕ) → b < 2 → 1 ≤ p → not (b * p == 0) ≡ (b == 1)
digit_test zero p lt one = ground arith
digit_test (suc zero) p lt one = ground arith
digit_test (suc (suc b)) p lt one = absurd (omega arith)

pub has-bit : (x n : ℕ) → has x n ≡ (bit n x == 1)
unfolding has
has-bit x n =
    rw bit_and-flag (digit_test (bit n x) (2 ^ n) (bit-lt n x) (one-le-pow n 2 (omega arith)))

pub raise-lt : (x n : ℕ) → x < 2 ^ 32 → n < 32 → raise x n < 2 ^ 32
raise-lt x n h q = lt_of_bits 32 (raise x n) λ k p. rw bit-raise (ground (arith, bit_of_lt 32 k x))

pub lower-lt : (x n : ℕ) → x < 2 ^ 32 → lower x n < 2 ^ 32
lower-lt x n h =
    lt_of_bits 32 (lower x n) λ k p. rw (bit-lower k x n h) (ground (arith, bit_of_lt 32 k x))

-- Setting a flag that is set, or clearing one that is clear, changes nothing.
pub raise_self : (x n : ℕ) → has x n ≡ true → raise x n ≡ x
raise_self x n e =
    let set : (bit n x == 1) ≡ true = sym (has-bit x n) ∙ e in
    let one : bit n x ≡ 1 = (==_iff _ _).0 set in
    bit_ext _ x λ k. rw bit-raise (elim (Bool-cases (k == n)) [
      | inl same ↦ let p : k ≡ n = (==_iff k n).0 same in rw (same, p) (sym one)
      | inr other ↦ rw other
    ])

pub lower_self : (x n : ℕ) → x < 2 ^ 32 → has x n ≡ false → lower x n ≡ x
lower_self x n h e =
    let clear : (bit n x == 1) ≡ false = sym (has-bit x n) ∙ e in
    let none_set : bit n x ≡ 0 = ground (arith, bit-lt n x) in
    bit_ext _ x λ k. rw (bit-lower k x n h) (elim (Bool-cases (k == n)) [
      | inl same ↦ let p : k ≡ n = (==_iff k n).0 same in rw (same, p) (sym none_set)
      | inr other ↦ rw other
    ])

pub has-raise : (x n m : ℕ) → has (raise x n) m ≡ (if m == n then true else has x m)
has-raise x n m = rw (has-bit (raise x n) m, has-bit x m, bit-raise) (ground arith)

pub has-lower : (x n m : ℕ) → x < 2 ^ 32 → has (lower x n) m ≡ (if m == n then false else has x m)
has-lower x n m h = rw (has-bit (lower x n) m, has-bit x m, bit-lower m x n h) (ground arith)
