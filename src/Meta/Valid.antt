-- ===== src/Meta/Valid.antt =====
-- user/shared/drbdmeta.c: is_valid_md, the test that every super block passes when it is read and
-- before it is written.
pub mod Layout
use drbd_utils.Prelude.{
  ℕ, zero, suc, ◌+◌, ◌-◌, ◌*◌, ◌/◌, ◌^◌, Bool, true, false, not, ◌&&◌, ◌||◌, ℤ, pos, negsuc, ◌+ℤ◌,
  neg_ℤ, eq_ℤ, bits64, s64, ltb, leb, ◌==◌, if◌then◌else◌, Result, ok, ◌>>=◌, ◌>>◌, assert,
}
use drbd_utils.Headers.{Headers}
use drbd_utils.Meta.Types.{
  MdFormat, v06, v07, v08, v09, unknown, MdIndex, slot, internal, flex_ext, flex_int, MdCpu,
}
use drbd_utils.Meta.Layout.{
  align, bm_bytes, al_size_sect, md_al_offset_07, total_sect, offset_behind,
}

abbrev pub md_magic_06 : Headers → ℕ
md_magic_06 h = h.magic + 2

abbrev pub md_magic_07 : Headers → ℕ
md_magic_07 h = h.magic + 3

abbrev pub md_magic_08 : Headers → ℕ
md_magic_08 h = h.magic + 4

abbrev pub md_magic_84_unclean : Headers → ℕ
md_magic_84_unclean h = h.magic + 5

abbrev pub md_magic_09 : Headers → ℕ
md_magic_09 h = h.magic + 6

-- v06_validate_md: 0 is valid, -1 is not.
unfoldable pub v06_validate_md : Headers → MdCpu → Bool
v06_validate_md h md = md.magic == md_magic_06 h

-- ASSERT(f == DRBD_V07 || f == DRBD_V08 || f == DRBD_V09)
abbrev pub has_layout : MdFormat → Bool
has_layout v07 = true
has_layout v08 = true
has_layout v09 = true
has_layout v06 = false
has_layout unknown = false

abbrev pub magic_fits : Headers → MdFormat → ℕ → Bool
magic_fits h v07 m = m == md_magic_07 h
magic_fits h v08 m = m == md_magic_08 h || m == md_magic_84_unclean h
magic_fits h v09 m = m == md_magic_09 h
magic_fits h v06 m = true
magic_fits h unknown m = true

-- `!(z < -1 || z > top)`
abbrev pub node_in_range : ℕ → ℤ → Bool
node_in_range top (pos n) = leb n top
node_in_range top (negsuc n) = n == 0

unfoldable pub slots_in_range : Headers → MdCpu → ℕ → Bool
slots_in_range h md zero = true
slots_in_range h md (suc n) =
    slots_in_range h md n && node_in_range (h.peers_max - 1) (md.peers n).bitmap_index

abbrev pub is_v07 : MdFormat → Bool
is_v07 v07 = true
is_v07 _ = false

-- `-(int64_t)md_size_sect + MD_AL_OFFSET_07`
unfoldable pub expected_below : ℕ → ℤ
unfolding neg_ℤ
expected_below md_size_sect = neg_ℤ (s64 md_size_sect) +ℤ pos md_al_offset_07

-- The case DRBD_MD_INDEX_FLEX_INT.
unfoldable pub flexible_fits : Headers → MdFormat → MdCpu → ℕ → Result Bool
unfolding align
flexible_fits h f md ll_size = do
  let al = al_size_sect md
  bytes ← bm_bytes h md (ll_size / 2 ^ 9)
  let md_size = total_sect (align (bytes / 2 ^ 9) 8) al
  ok (eq_ℤ md.bm_offset (expected_below md_size) && (md.md_size_sect == md_size || is_v07 f))

unfoldable pub front_fits : MdCpu → Bool
front_fits md =
    eq_ℤ md.al_offset (pos md_al_offset_07) && eq_ℤ md.bm_offset (offset_behind (al_size_sect md))

unfoldable pub offsets_fit : Headers → MdFormat → MdCpu → MdIndex → ℕ → Result Bool
unfolding front_fits flexible_fits expected_below al_size_sect total_sect offset_behind neg_ℤ
    bm_bytes
offsets_fit h f md (slot i) ll_size = ok (front_fits md)
offsets_fit h f md internal ll_size = ok (front_fits md)
offsets_fit h f md flex_ext ll_size = ok (front_fits md)
offsets_fit h f md flex_int ll_size =
    let rest = flexible_fits h f md ll_size in
    if eq_ℤ md.al_offset (neg_ℤ (al_size_sect md)) then rest else ok false

-- What is tested before the offsets.
unfoldable pub header_fits : Headers → MdFormat → MdCpu → Bool
unfolding slots_in_range
header_fits h f md =
    magic_fits h f md.magic
    && (leb 1 md.max_peers && leb md.max_peers (h.peers_max - 1))
    && node_in_range (h.peers_max - 1) md.node_id
    && slots_in_range h md md.max_peers

unfoldable pub is_valid_md : Headers → MdFormat → MdCpu → MdIndex → ℕ → Result Bool
unfolding header_fits offsets_fit
is_valid_md h f md md_index ll_size =
    let rest = offsets_fit h f md md_index ll_size in
    assert (has_layout f) >>= λ _. if header_fits h f md then rest else ok false
