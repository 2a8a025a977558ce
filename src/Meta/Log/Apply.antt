-- ===== src/Meta/Log/Apply.antt =====
-- user/shared/drbdmeta.c: which bits of the bitmap a hot extent stands for. size_t has 64 bits.
pub mod Mask
use drbd_utils.Prelude.{ℕ, ◌+◌, ◌-◌, ◌*◌, ◌/◌, ◌%◌, ◌^◌, bit_and, u32, u64}

-- struct extent_bit_range
pub record ExtentBitRange : Type 0 where
  pub bit_s : ℕ
  pub bit_e : ℕ
  pub on_disk_word32_pos_s : ℕ
  pub on_disk_word32_pos_e : ℕ
  pub aligned_4k_x_max_peers_on_disk_pos : ℕ

abbrev pub round_down : ℕ → ℕ → ℕ
round_down i g = i / g * g

unfoldable pub enr_to_bit_range : ℕ → ℕ → ℕ → ExtentBitRange
enr_to_bit_range enr bits_per_extent max_peers =
    let bit_s = u64 (enr * bits_per_extent) in
    let bit_e = u64 (bit_s + bits_per_extent) in
    let pos_s = u64 (bit_s / 32 * max_peers * 4) in
    record {
      bit_s = bit_s;
      bit_e = bit_e;
      on_disk_word32_pos_s = pos_s;
      on_disk_word32_pos_e = u64 (u64 (bit_e + 31) / 32 * max_peers * 4);
      aligned_4k_x_max_peers_on_disk_pos = round_down pos_s (4096 * max_peers);
    }

-- The two lines that compute `mask` for an extent of fewer than 32 bits.
unfoldable pub word_mask : ExtentBitRange → ℕ
word_mask r =
    bit_and (u32 ((2 ^ 32 - 1) * 2 ^ bit_and r.bit_s 31))
      ((2 ^ 32 - 1) / 2 ^ bit_and (u64 (32 + (2 ^ 64 - bit_and r.bit_e 31))) 31)
