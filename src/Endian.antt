-- ===== src/Endian.antt =====
-- user/shared/drbd_endian.h on a little-endian machine: the byte swaps, `cpu_to_be*` and
-- `be*_to_cpu`, and the Hamming weight.
pub mod Laws
use drbd_utils.Prelude.{ℕ, ◌+◌, ◌*◌, ◌/◌, ◌%◌, ◌^◌, bit_and, bit_or, u32, u64}

unfoldable pub swab16 : ℕ → ℕ
swab16 x = (bit_or (bit_and x 0x00ff * 2 ^ 8) (bit_and x 0xff00 / 2 ^ 8)) % 2 ^ 16

unfoldable pub swab32 : ℕ → ℕ
swab32 x = u32 (
    bit_or (bit_and x 0x000000ff * 2 ^ 24) (
      bit_or (bit_and x 0x0000ff00 * 2 ^ 8)
        (bit_or (bit_and x 0x00ff0000 / 2 ^ 8) (bit_and x 0xff000000 / 2 ^ 24))))

unfoldable pub swab64 : ℕ → ℕ
swab64 x = u64 (
    bit_or (bit_and x 0x00000000000000ff * 2 ^ 56) (
      bit_or (bit_and x 0x000000000000ff00 * 2 ^ 40) (
        bit_or (bit_and x 0x0000000000ff0000 * 2 ^ 24) (
          bit_or (bit_and x 0x00000000ff000000 * 2 ^ 8) (
            bit_or (bit_and x 0x000000ff00000000 / 2 ^ 8) (
              bit_or (bit_and x 0x0000ff0000000000 / 2 ^ 24) (
                bit_or (bit_and x 0x00ff000000000000 / 2 ^ 40)
                  (bit_and x 0xff00000000000000 / 2 ^ 56))))))))

abbrev pub be16 : ℕ → ℕ
be16 x = swab16 x

abbrev pub be32 : ℕ → ℕ
be32 x = swab32 x

abbrev pub be64 : ℕ → ℕ
be64 x = swab64 x

unfoldable pub generic_hweight32 : ℕ → ℕ
generic_hweight32 w =
    let a = bit_and w 0x55555555 + bit_and (w / 2) 0x55555555 in
    let b = bit_and a 0x33333333 + bit_and (a / 4) 0x33333333 in
    let c = bit_and b 0x0f0f0f0f + bit_and (b / 16) 0x0f0f0f0f in
    let d = bit_and c 0x00ff00ff + bit_and (c / 256) 0x00ff00ff in
    bit_and d 0x0000ffff + bit_and (d / 65536) 0x0000ffff
