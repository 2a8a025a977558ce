-- ===== src/Meta/Log/Apply/Mask.antt =====
-- The mask of an extent that covers a part of a word.
use drbd_utils.Prelude.{
  ℕ, zero, suc, ◌+◌, ◌-◌, ◌*◌, ◌/◌, ◌%◌, ◌^◌, ◌≤◌, ◌<◌, ◌≡◌, refl, Bool, true, ◌&&◌, inl, inr, ltb,
  leb, ◌==◌, if◌then◌else◌, Bool-cases, ==_iff, bit_and, u32, u64, arith,
}
use native.Mathlib.Nat.{mul-le-mul}
use drbd_utils.Prelude.Bits.{bit, bit_and_low}
use drbd_utils.Meta.Log.Apply.{ExtentBitRange, enr_to_bit_range, word_mask}

-- The mask of the bits from `s` on, `n` of them, and the test of one of its bits.
abbrev mask_at : ℕ → ℕ → ℕ
mask_at s n = bit_and (u32 ((2 ^ 32 - 1) * 2 ^ s)) ((2 ^ 32 - 1) / 2 ^ ((32 - (s + n) % 32) % 32))

abbrev wanted : ℕ → ℕ → ℕ → ℕ
wanted s n k = if leb s k && ltb k (s + n) then 1 else 0

abbrev all_below : (ℕ → Bool) → ℕ → Bool
all_below p zero = true
all_below p (suc n) = all_below p n && p n

all_below_sound : (p : ℕ → Bool) (n k : ℕ) → all_below p n ≡ true → k < n → p k ≡ true
all_below_sound p zero k a lt = absurd (omega arith)
all_below_sound p (suc n) k a lt =
    let before = all_below_sound p n k in
    elim (Bool-cases (k == n)) [ inl e ↦ ground arith | inr e ↦ ground (arith, before) ]

abbrev right_masks : ℕ → Bool
right_masks n =
    all_below (λ q. all_below (λ k. bit k (mask_at (q * n) n) == wanted (q * n) n k) 32) (32 / n)

-- The sizes of an extent, in bits, below a word.
pub data IsPartial : ℕ → Type 0 where
  four : IsPartial 4
  eight : IsPartial 8
  sixteen : IsPartial 16

masks : {n : ℕ} → IsPartial n → right_masks n ≡ true
unfolding bit
masks four = refl
masks eight = refl
masks sixteen = refl

bit_of_mask :
    {n : ℕ} (p : IsPartial n) (q k : ℕ)
    → q < 32 / n
    → k < 32
    → bit k (mask_at (q * n) n) ≡ wanted (q * n) n k
bit_of_mask {n} p q k small lt =
    let row =
      all_below_sound (λ q. all_below (λ k. bit k (mask_at (q * n) n) == wanted (q * n) n k) 32)
        (32 / n) q (masks p) small in
    let cell = all_below_sound (λ k. bit k (mask_at (q * n) n) == wanted (q * n) n k) 32 k row lt in
    (==_iff _ _).0 cell

wide :
    {n : ℕ} (p : IsPartial n) (enr : ℕ)
    → enr < 2 ^ 32
    → (u64 (enr * n) ≡ enr * n) × (u64 (enr * n + n) ≡ enr * n + n)
wide four enr lt = omega arith
wide eight enr lt = omega arith
wide sixteen enr lt = omega arith

-- A 32 bit extent number, at these sizes: the range of bits does not wrap.
range_of :
    {n : ℕ} (p : IsPartial n) (enr mp : ℕ)
    → enr < 2 ^ 32
    → ((enr_to_bit_range enr n mp).bit_s ≡ enr * n)
      × ((enr_to_bit_range enr n mp).bit_e ≡ enr * n + n)
unfolding enr_to_bit_range
range_of four enr mp lt = omega arith
range_of eight enr mp lt = omega arith
range_of sixteen enr mp lt = omega arith

-- Where the extent starts in its word.
place :
    {n : ℕ} (p : IsPartial n) (enr : ℕ)
    → (enr * n % 32 ≡ enr % (32 / n) * n) × (enr % (32 / n) < 32 / n)
place four enr = omega arith
place eight enr = omega arith
place sixteen enr = omega arith

same_test :
    (b n s k : ℕ)
    → b % 32 ≡ s
    → wanted s n k ≡ (if leb b (b / 32 * 32 + k) && ltb (b / 32 * 32 + k) (b + n) then 1 else 0)
same_test b n s k e = ground arith

one_word :
    {n : ℕ} (p : IsPartial n) (enr : ℕ)
    → enr < 2 ^ 32
    → (u64 (enr * n + n + 31) / 32 ≡ enr * n / 32 + 1) × (enr * n / 32 < 2 ^ 31)
one_word four enr lt = omega arith
one_word eight enr lt = omega arith
one_word sixteen enr lt = omega arith

next_word : (w mp : ℕ) → w < 2 ^ 31 → mp ≤ 31 → u64 ((w + 1) * mp * 4) ≡ u64 (w * mp * 4) + mp * 4
next_word w mp lt peers =
    let small : w ≤ 2 ^ 31 = omega arith in
    let few : w * mp ≤ 2 ^ 31 * 31 = mul-le-mul small peers in
    let more : (w + 1) * mp ≡ w * mp + mp = omega arith in rw more (omega arith)

word_after :
    {n : ℕ} (p : IsPartial n) (enr mp : ℕ)
    → enr < 2 ^ 32
    → mp ≤ 31
    → (enr_to_bit_range enr n mp).on_disk_word32_pos_e
      ≡ (enr_to_bit_range enr n mp).on_disk_word32_pos_s + mp * 4
unfolding enr_to_bit_range
word_after {n} p enr mp lt peers =
    let (s, e) = wide p enr lt in
    let (next, few) = one_word p enr lt in rw (s, e, next) (next_word (enr * n / 32) mp few peers)

module _ {n : ℕ} (p : IsPartial n) (enr mp : ℕ) (lt : enr < 2 ^ 32) where
  abbrev r : ExtentBitRange
  r = enr_to_bit_range enr n mp

  word_mask-mask_at : word_mask r ≡ mask_at (enr % (32 / n) * n) n
  unfolding word_mask
  word_mask-mask_at =
      let (s, e) = range_of p enr mp lt in
      let (at, below) = place p enr in
      let next : (enr * n + n) % 32 ≡ (enr % (32 / n) * n + n) % 32 = omega arith in
      let gap : u64 (32 + (2 ^ 64 - (enr % (32 / n) * n + n) % 32)) % 32
          ≡ (32 - (enr % (32 / n) * n + n) % 32) % 32 =
        omega arith in
      rw
        (
          s,
          e,
          bit_and_low 5 (enr * n),
          bit_and_low 5 (enr * n + n),
          at,
          next,
          bit_and_low 5 (u64 (32 + (2 ^ 64 - (enr % (32 / n) * n + n) % 32))),
          gap,
        )
        refl

  -- An extent of 4, 8 or 16 bits lies in one word of each peer, and the mask that apply_al() computes
  -- sets exactly its bits: bit `k` of the mask is set where bit `k` of that word, counted from the
  -- start of the bitmap, lies in the range. The number of the extent has 32 bits, and there are at
  -- most 31 peers.
  pub word_mask-covers :
      mp ≤ 31
      → (r.on_disk_word32_pos_e ≡ r.on_disk_word32_pos_s + mp * 4)
        × ((k : ℕ)
            → k < 32
            → let here = r.bit_s / 32 * 32 + k in
              bit k (word_mask r) ≡ (if leb r.bit_s here && ltb here r.bit_e then 1 else 0))
  word_mask-covers peers =
      let (s, e) = range_of p enr mp lt in
      let (at, small) = place p enr in
      (
        word_after p enr mp lt peers,
        λ k below.
            rw (word_mask-mask_at, s, e, bit_of_mask p (enr % (32 / n)) k small below)
              (same_test (enr * n) n (enr % (32 / n) * n) k at),
      )
