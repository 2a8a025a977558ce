-- ===== src/Meta/Convert.antt =====
-- user/shared/drbdmeta.c: conversion of the in-core meta data between the formats, and detection of
-- the format of a super block. The conversions print a text and end the process if the result is
-- not valid.
pub mod Detect
pub mod Laws
use drbd_utils.Prelude.{
  ℕ, zero, suc, ◌+◌, ◌-◌, ◌*◌, ◌/◌, ◌%◌, ◌^◌, Bool, true, false, not, bit_and, bit_or, bit_xor, u32,
  u64, ℤ, pos, negsuc, ltb, leb, ◌==◌, if◌then◌else◌, Result, ok, ◌>>=◌, ◌>>◌, exit_if,
}
use drbd_utils.Headers.{Headers, flag}
use drbd_utils.Meta.Types.{MdFormat, v06, v07, v08, v09, unknown, MdIndex, PeerMd, MdCpu, Format}
use drbd_utils.Meta.Disk.{
  MdOnDisk07, MdOnDisk08, MdOnDisk09, md_disk_07_to_cpu, md_disk_08_to_cpu, md_disk_09_to_cpu,
}
use drbd_utils.Meta.Flags.{has, raise}
use drbd_utils.Meta.Layout.{re_initialize_md_offsets}
use drbd_utils.Meta.Valid.{md_magic_07, md_magic_08, md_magic_09, is_valid_md}

-- enum mdf_flag_08 of user/v9/drbdtool_common.h, as bit numbers
abbrev pub connected_ind : ℕ
connected_ind = 2

abbrev pub full_sync : ℕ
full_sync = 3

abbrev pub peer_out_dated : ℕ
peer_out_dated = 5

abbrev pub copy_flag : Bool → ℕ → ℕ → ℕ
copy_flag b x n = if b then raise x n else x

-- The test at the end of each conversion.
unfoldable pub check_converted : Headers → MdFormat → Format → Result Format
check_converted h f cfg = do
  valid ← is_valid_md h f cfg.md cfg.md_index cfg.bd_size
  exit_if (not valid) 111
  ok cfg

-- Words of `gc`: enum MetaDataIndex.
abbrev uuid_of_gc : (ℕ → ℕ) → ℕ
uuid_of_gc gc = bit_or (bit_and (gc 1) 0xffff * 2 ^ 48) (
    bit_or (bit_and (gc 2) 0xffff * 2 ^ 32)
      (bit_or (bit_and (u32 (gc 3 + gc 4)) 0xffff * 2 ^ 16) 0xbabe))

-- `current_uuid - j * 0x10000` at uint64_t
abbrev older : ℕ → ℕ → ℕ
older uuid j = u64 (uuid + (2 ^ 64 - j * 0x10000))

-- The loop from UI_BITMAP or UI_HISTORY_START to UI_HISTORY_END.
unfoldable pub md_07_as_08 : Headers → ℕ → MdCpu → MdCpu
md_07_as_08 h bits_set md =
    let uuid = uuid_of_gc md.gc in
    let dirty = not (bits_set == 0) in
    let first = if dirty then 2 else 1 in
    record md {
      magic = md_magic_08 h;
      flags = md.gc 0;
      current_uuid = uuid;
      peers = λ p.
          if p == 0
          then record (md.peers 0) { bitmap_uuid = if dirty then older uuid 1 else 0 }
          else md.peers p;
      history_uuids = λ i. if ltb i 2 then older uuid (first + i) else md.history_uuids i;
    }

unfoldable pub md_convert_07_to_08 : Headers → ℕ → Format → Result Format
unfolding md_07_as_08 check_converted
md_convert_07_to_08 h option cfg = do
  moved ← re_initialize_md_offsets h option (record cfg { md = md_07_as_08 h cfg.bits_set cfg.md })
  check_converted h v08 moved

unfoldable pub md_convert_08_to_07 : Headers → ℕ → Format → Result Format
unfolding check_converted
md_convert_08_to_07 h option cfg = do
  let md = record (cfg.md) { magic = md_magic_07 h }
  moved ← re_initialize_md_offsets h option (record cfg { md = md })
  check_converted h v07 moved

-- The peers after the loop, with the flags of the first.
unfoldable pub cleared_peer : PeerMd → PeerMd
cleared_peer p = record p { bitmap_uuid = 0; flags = 0; bitmap_index = negsuc 0 }

unfoldable pub first_flags : Headers → ℕ → ℕ → ℕ
first_flags h start flags =
    let a = copy_flag (has flags connected_ind) start h.peer_connected in
    let b = copy_flag (has flags full_sync) a h.peer_full_sync in
    copy_flag (has flags peer_out_dated) b h.peer_outdated

-- `flags &= ~(MDF_CONNECTED_IND | MDF_FULL_SYNC | MDF_PEER_OUT_DATED)`
unfoldable pub strip : ℕ → ℕ
strip flags = bit_and flags (
    bit_xor (bit_or (bit_or (flag connected_ind) (flag full_sync)) (flag peer_out_dated))
      (2 ^ 32 - 1))

looped_peer : Headers → MdCpu → ℕ → PeerMd
unfolding cleared_peer
looped_peer h md p = if ltb p h.node_id_max then cleared_peer (md.peers p) else md.peers p

unfoldable pub md_08_as_09 : Headers → MdCpu → MdCpu
unfolding looped_peer first_flags strip
md_08_as_09 h md =
    let first = looped_peer h md 0 in
    record md {
      peers = λ p.
          if p == 0
          then record first { flags = first_flags h first.flags md.flags }
          else looped_peer h md p;
      flags = strip md.flags;
      node_id = negsuc 0;
      magic = md_magic_09 h;
    }

unfoldable pub md_convert_08_to_09 : Headers → ℕ → Format → Result Format
unfolding md_08_as_09 check_converted
md_convert_08_to_09 h option cfg = do
  moved ← re_initialize_md_offsets h option (record cfg { md = md_08_as_09 h cfg.md })
  check_converted h v09 moved

unfoldable pub restore_flags : Headers → ℕ → ℕ → ℕ
restore_flags h peer flags =
    let a = copy_flag (has peer h.peer_connected) flags connected_ind in
    let b = copy_flag (has peer h.peer_full_sync) a full_sync in
    copy_flag (has peer h.peer_outdated) b peer_out_dated

unfoldable pub md_09_as_08 : Headers → MdCpu → MdCpu
unfolding restore_flags
md_09_as_08 h md = record md {
  flags = restore_flags h (md.peers 0).flags md.flags;
  magic = md_magic_08 h;
  max_peers = 1;
}

unfoldable pub md_convert_09_to_08 : Headers → ℕ → Format → Result Format
unfolding md_09_as_08 check_converted
md_convert_09_to_08 h option cfg = do
  moved ← re_initialize_md_offsets h option (record cfg { md = md_09_as_08 h cfg.md })
  check_converted h v08 moved

-- The nested switch, with its cases that fall through.
module _ (h : Headers) (option : ℕ) where
  convert_to_07 : MdFormat → Format → Result Format
  unfolding md_convert_09_to_08 md_convert_08_to_07
  convert_to_07 v09 cfg = do
    cfg' ← md_convert_09_to_08 h option cfg
    md_convert_08_to_07 h option cfg'
  convert_to_07 v08 cfg = md_convert_08_to_07 h option cfg
  convert_to_07 v07 cfg = ok cfg
  convert_to_07 v06 cfg = exit_if true 10 >> ok cfg
  convert_to_07 unknown cfg = exit_if true 10 >> ok cfg

  convert_to_08 : MdFormat → Format → Result Format
  unfolding md_convert_09_to_08 md_convert_07_to_08
  convert_to_08 v07 cfg = md_convert_07_to_08 h option cfg
  convert_to_08 v08 cfg = ok cfg
  convert_to_08 v09 cfg = md_convert_09_to_08 h option cfg
  convert_to_08 v06 cfg = exit_if true 10 >> ok cfg
  convert_to_08 unknown cfg = exit_if true 10 >> ok cfg

  convert_to_09 : MdFormat → Format → Result Format
  unfolding md_convert_07_to_08 md_convert_08_to_09
  convert_to_09 v07 cfg = do
    cfg' ← md_convert_07_to_08 h option cfg
    md_convert_08_to_09 h option cfg'
  convert_to_09 v08 cfg = md_convert_08_to_09 h option cfg
  convert_to_09 v09 cfg = ok cfg
  convert_to_09 v06 cfg = exit_if true 10 >> ok cfg
  convert_to_09 unknown cfg = exit_if true 10 >> ok cfg

  unfoldable pub convert_md : MdFormat → Format → Result Format
  unfolding convert_to_07 convert_to_08 convert_to_09
  convert_md from cfg = elim cfg.version [
    | v07 ↦ convert_to_07 from cfg
    | v08 ↦ convert_to_08 from cfg
    | v09 ↦ convert_to_09 from cfg
    | _ ↦ exit_if true 10 >> ok cfg
  ]

-- The global on_disk_buffer, as each of the formats reads it.
pub record OnDiskBuffer : Type 0 where
  pub as_07 : MdOnDisk07
  pub as_08 : MdOnDisk08
  pub as_09 : MdOnDisk09

-- One step of detect_md: the super block of format `f`, if it is valid, replaces what was found.
try_format : Headers → MdFormat → MdCpu → ℕ → MdIndex → MdFormat × MdCpu → Result (MdFormat × MdCpu)
try_format h f test ll_size index found = do
  valid ← is_valid_md h f test index ll_size
  ok (if valid then (f, test) else found)

unfoldable pub detect_md : Headers → OnDiskBuffer → MdCpu → ℕ → MdIndex → Result (MdFormat × MdCpu)
unfolding try_format
detect_md h buffer md ll_size index = do
  have ← try_format h v07 (md_disk_07_to_cpu h buffer.as_07) ll_size index (unknown, md)
  have' ← try_format h v08 (md_disk_08_to_cpu h buffer.as_08) ll_size index have
  try_format h v09 (md_disk_09_to_cpu h buffer.as_09) ll_size index have'
