-- ===== src/Tests/Crc.antt =====
-- The check value of CRC-32C: the bytes of "123456789".
use drbd_utils.Prelude.{ℕ, ◌≡◌, refl, bit_xor, List, [], ◌∷◌, arith}
use drbd_utils.Tool.Crc.{crc32c}
use drbd_utils.Tool.Crc.Bitwise.{crc_by_bits, crc32c-crc_by_bits}

abbrev digits : List ℕ
digits = 49 ∷ 50 ∷ 51 ∷ 52 ∷ 53 ∷ 54 ∷ 55 ∷ 56 ∷ 57 ∷ []

check_value : bit_xor (crc32c 0xFFFFFFFF digits) 0xFFFFFFFF ≡ 0xE3069283
unfolding crc32c
check_value = refl

crc32c-crc_by_bits_example :
    crc32c 0xFFFFFFFF (49 ∷ 50 ∷ []) ≡ crc_by_bits 0xFFFFFFFF (49 ∷ 50 ∷ [])
crc32c-crc_by_bits_example =
    crc32c-crc_by_bits 0xFFFFFFFF (49 ∷ 50 ∷ []) (omega arith, (omega arith, tt))
