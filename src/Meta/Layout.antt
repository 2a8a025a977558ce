-- ===== src/Meta/Layout.antt =====
-- user/shared/drbdmeta.c: where super block, activity log and bitmap lie, and whether a super block
-- is valid. Offsets are in sectors relative to the super block (`int` fields of struct md_cpu) or in
-- bytes on the device (uint64_t fields of struct format). long has 64 bits.
pub mod Bounds
use drbd_utils.Prelude.{
  ℕ, zero, suc, ◌+◌, ◌-◌, ◌*◌, ◌/◌, ◌%◌, ◌^◌, min, Bool, true, false, not, ◌&&◌, ◌||◌, bit_and, u32,
  u64, ℤ, pos, negsuc, ◌+ℤ◌, neg_ℤ, eq_ℤ, s32, bits32, bits64, s64, store32, ltb, leb, ◌==◌,
  if◌then◌else◌, Result, ok, ◌>>=◌, ◌>>◌, assert, exit_if,
}
use drbd_utils.Headers.{Headers}
use drbd_utils.Meta.Types.{
  MdFormat, v06, v07, v08, v09, unknown, MdIndex, slot, internal, flex_ext, flex_int, MdCpu, Format,
}

abbrev pub md_al_offset_07 : ℕ
md_al_offset_07 = 8

abbrev pub md_bm_offset_07 : ℕ
md_bm_offset_07 = 72

abbrev pub md_reserved_sect_07 : ℕ
md_reserved_sect_07 = 2 ^ 18

abbrev pub md_bm_max_byte_flex : ℕ
md_bm_max_byte_flex = 2 ^ 35

-- ALIGN of drbdmeta.h at uint64_t.
unfoldable pub align : ℕ → ℕ → ℕ
align x a = bit_and (u64 (x + (a - 1))) (2 ^ 64 - 1 - (a - 1))

unfoldable pub is_power_of_2 : ℕ → Bool
is_power_of_2 n = not (n == 0) && bit_and n (n - 1) == 0

unfoldable pub bm_bytes : Headers → MdCpu → ℕ → Result ℕ
unfolding align is_power_of_2
bm_bytes h md sectors = do
  let sectors_per_bit = md.bm_bytes_per_bit / 2 ^ 9
  assert (leb sectors (2 ^ 41))
  assert (leb h.bm_block_size_min md.bm_bytes_per_bit)
  assert (leb md.bm_bytes_per_bit h.bm_block_size_max)
  assert (is_power_of_2 md.bm_bytes_per_bit)
  let bm_bits = align ((sectors + sectors_per_bit - 1) / sectors_per_bit) 64
  ok (align (u64 (bm_bits / 8 * md.max_peers)) 4096)

-- `int al_size_sect`
unfoldable pub al_size_sect : MdCpu → ℤ
al_size_sect md = s32 (u32 (md.al_stripes * md.al_stripe_size_4k * 8))

-- `bm_sect + MD_AL_OFFSET_07 + al_size_sect` at uint64_t.
unfoldable pub total_sect : ℕ → ℤ → ℕ
total_sect bm_sect al = bits64 (pos bm_sect +ℤ (pos md_al_offset_07 +ℤ al))

-- `-md_size_sect + MD_AL_OFFSET_07` at uint64_t, stored into an `int32_t`.
unfoldable pub offset_below : ℕ → ℤ
offset_below md_size_sect = s32 (u32 (2 ^ 64 - md_size_sect + md_al_offset_07))

-- `MD_AL_OFFSET_07 + al_size_sect`
unfoldable pub offset_behind : ℤ → ℤ
offset_behind al = pos md_al_offset_07 +ℤ al

-- The store of an `int` expression into an `int32_t` field.
unfoldable pub stored : ℤ → ℤ
stored z = store32 z

-- `md_offset + z * 512LL`
unfoldable pub byte_offset : ℕ → ℤ → ℕ
byte_offset base (pos n) = u64 (base + n * 512)
byte_offset base (negsuc n) = u64 (base + (2 ^ 64 - suc n * 512 % 2 ^ 64))

unfoldable pub v07_style_md_get_byte_offset : MdIndex → ℕ → ℕ
v07_style_md_get_byte_offset (slot i) bd_size = u64 (md_reserved_sect_07 * i * 512)
v07_style_md_get_byte_offset internal bd_size =
    u64 (bit_and bd_size (2 ^ 64 - 4096) + (2 ^ 64 - md_reserved_sect_07 * 512))
v07_style_md_get_byte_offset flex_ext bd_size = 0
v07_style_md_get_byte_offset flex_int bd_size =
    bit_and (u64 (bd_size + (2 ^ 64 - 4096))) (2 ^ 64 - 4096)

-- `format_version(cfg) < DRBD_V09`
abbrev pub before_09 : MdFormat → Bool
before_09 v09 = false
before_09 unknown = false
before_09 _ = true

abbrev pub is_slot : MdIndex → Bool
is_slot (slot i) = true
is_slot internal = false
is_slot flex_ext = false
is_slot flex_int = false

unfoldable pub external_sectors : Headers → Format → Result ℕ
unfolding is_power_of_2
external_sectors h cfg =
    let md = cfg.md in
    let old_style = before_09 cfg.version || is_slot cfg.md_index in
    let sectors = (md.md_size_sect + 2 ^ 32 - bits32 md.bm_offset) % 2 ^ 32 in
    do
      assert (
          if old_style
          then md.bm_bytes_per_bit == h.bm_block_size_4k
          else is_power_of_2 md.bm_bytes_per_bit
            && leb h.bm_block_size_min md.bm_bytes_per_bit
            && leb md.bm_bytes_per_bit h.bm_block_size_max)
      ok (u64 (sectors * 512 * 8 / 64 / md.max_peers * 64 * md.bm_bytes_per_bit) / 512)

unfoldable pub internal_sectors : Format → ℕ
internal_sectors cfg = min (min cfg.md_offset cfg.al_offset) cfg.bm_offset / 2 ^ 9

unfoldable pub max_usable_sectors : Headers → Format → Result ℕ
unfolding external_sectors internal_sectors
max_usable_sectors h cfg = elim cfg.md_index [
  | internal ↦ ok (internal_sectors cfg)
  | flex_int ↦ ok (internal_sectors cfg)
  | _ ↦ external_sectors h cfg
]

-- The sizes of one of the layouts: sectors of the meta data area, offsets, bytes of the bitmap.
pub record Layout : Type 0 where
  pub md_size_sect : ℕ
  pub al_offset : ℤ
  pub bm_offset : ℤ
  pub bm_bytes : ℕ

-- The layouts with the super block first: the bitmap takes what `size` leaves.
unfoldable pub from_front : ℕ → ℤ → Layout
from_front size bm = record {
  md_size_sect = size;
  al_offset = pos md_al_offset_07;
  bm_offset = bm;
  bm_bytes = 512 * ((size + 2 ^ 32 - bits32 bm) % 2 ^ 32);
}

unfoldable pub flexible_internal : Headers → MdCpu → ℕ → Result Layout
unfolding align
flexible_internal h md bd_size = do
  let al = al_size_sect md
  bytes ← bm_bytes h md (bd_size / 2 ^ 9)
  let bm_sect = align (bytes / 2 ^ 9) 8
  exit_if (ltb (md_bm_max_byte_flex / 2 ^ 9 * md.max_peers) bm_sect) 10
  let md_size = total_sect bm_sect al
  ok (record {
    md_size_sect = u32 md_size;
    al_offset = stored (neg_ℤ al);
    bm_offset = offset_below md_size;
    bm_bytes = bytes;
  })

unfoldable pub layout : Headers → MdCpu → MdIndex → ℕ → Result Layout
unfolding from_front flexible_internal al_size_sect total_sect offset_below offset_behind stored
    neg_ℤ bm_bytes align is_power_of_2
layout h md (slot i) bd_size =
    ok (from_front md_reserved_sect_07 (stored (offset_behind (al_size_sect md))))
layout h md flex_ext bd_size =
    ok (from_front (u32 (bd_size / 2 ^ 9)) (stored (offset_behind (al_size_sect md))))
layout h md internal bd_size = ok (from_front md_reserved_sect_07 (pos md_bm_offset_07))
layout h md flex_int bd_size = flexible_internal h md bd_size

-- The defaults that bm_bytes() needs; `option` is option_bm_block_size.
unfoldable pub sane_defaults : Headers → ℕ → MdCpu → MdCpu
sane_defaults h option md = record md {
  bm_bytes_per_bit =
      if md.bm_bytes_per_bit == 0
      then (if option == 0 then h.bm_block_size_4k else option)
      else md.bm_bytes_per_bit;
  max_peers = if md.max_peers == 0 then 1 else md.max_peers;
}

abbrev pub with_layout : MdCpu → Layout → MdCpu
with_layout md l = record md {
  md_size_sect = l.md_size_sect;
  al_offset = l.al_offset;
  bm_offset = l.bm_offset;
}

unfoldable pub re_initialize_md_offsets : Headers → ℕ → Format → Result Format
unfolding layout byte_offset
re_initialize_md_offsets h option cfg = do
  let md = sane_defaults h option cfg.md
  l ← layout h md cfg.md_index cfg.bd_size
  let placed = record cfg {
    md = with_layout md l;
    bm_bytes = l.bm_bytes;
    al_offset = byte_offset cfg.md_offset l.al_offset;
    bm_offset = byte_offset cfg.md_offset l.bm_offset;
  }
  sect ← max_usable_sectors h placed
  ok (record placed { max_usable_sect = sect })
