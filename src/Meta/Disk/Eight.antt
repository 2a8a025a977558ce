-- ===== src/Meta/Disk/Eight.antt =====
-- user/shared/drbdmeta.c: the super block of DRBD 8.
use drbd_utils.Prelude.{ℕ, ◌-◌, ◌+◌, Bool, ◌&&◌, s32, bits32, ltb, ◌==◌, if◌then◌else◌}
use drbd_utils.Headers.{Headers}
use drbd_utils.Endian.{be32, be64}
use drbd_utils.Meta.Types.{MdCpu}
use drbd_utils.Meta.Disk.Base.{zero_peer, zero_md, ui_current, ui_bitmap, ui_history_start}

-- struct md_on_disk_08, without the reserved words; `uuid` is indexed by enum drbd_uuid_index
pub record MdOnDisk08 : Type 0 where
  pub effective_size : ℕ
  pub uuid : ℕ → ℕ
  pub device_uuid : ℕ
  pub flags : ℕ
  pub magic : ℕ
  pub md_size_sect : ℕ
  pub al_offset : ℕ
  pub al_nr_extents : ℕ
  pub bm_offset : ℕ
  pub bm_bytes_per_bit : ℕ
  pub la_peer_max_bio_size : ℕ
  pub al_stripes : ℕ
  pub al_stripe_size_4k : ℕ

-- "not set? --> default to old fixed size activity log"
abbrev pub unset_stripes : ℕ → ℕ → Bool
unset_stripes stripes size = stripes == 0 && size == 0

unfoldable pub md_disk_08_to_cpu : Headers → MdOnDisk08 → MdCpu
md_disk_08_to_cpu h disk =
    let stripes = be32 disk.al_stripes in
    let size = be32 disk.al_stripe_size_4k in
    record zero_md {
      effective_size = be64 disk.effective_size;
      current_uuid = be64 (disk.uuid ui_current);
      peers = λ p.
          if p == 0
          then record zero_peer { bitmap_uuid = be64 (disk.uuid ui_bitmap) }
          else zero_peer;
      history_uuids =
          λ i. if ltb i h.history_uuids_v08 then be64 (disk.uuid (ui_history_start + i)) else 0;
      device_uuid = be64 disk.device_uuid;
      flags = be32 disk.flags;
      magic = be32 disk.magic;
      md_size_sect = be32 disk.md_size_sect;
      al_offset = s32 (be32 disk.al_offset);
      al_nr_extents = be32 disk.al_nr_extents;
      bm_offset = s32 (be32 disk.bm_offset);
      bm_bytes_per_bit = be32 disk.bm_bytes_per_bit;
      la_peer_max_bio_size = be32 disk.la_peer_max_bio_size;
      max_peers = 1;
      al_stripes = if unset_stripes stripes size then 1 else stripes;
      al_stripe_size_4k = if unset_stripes stripes size then 8 else size;
    }

-- The entry of `uuid` that the stores leave behind.
abbrev pub stored_uuid : Headers → MdCpu → ℕ → ℕ
stored_uuid h cpu i =
    if i == ui_current
    then be64 cpu.current_uuid
    else if i == ui_bitmap
    then be64 (cpu.peers 0).bitmap_uuid
    else if ltb (i - ui_history_start) h.history_uuids_v08
    then be64 (cpu.history_uuids (i - ui_history_start))
    else 0

unfoldable pub md_cpu_to_disk_08 : Headers → MdCpu → MdOnDisk08
md_cpu_to_disk_08 h cpu = record {
  effective_size = be64 cpu.effective_size;
  uuid = λ i. stored_uuid h cpu i;
  device_uuid = be64 cpu.device_uuid;
  flags = be32 cpu.flags;
  magic = be32 cpu.magic;
  md_size_sect = be32 cpu.md_size_sect;
  al_offset = be32 (bits32 cpu.al_offset);
  al_nr_extents = be32 cpu.al_nr_extents;
  bm_offset = be32 (bits32 cpu.bm_offset);
  bm_bytes_per_bit = be32 cpu.bm_bytes_per_bit;
  la_peer_max_bio_size = be32 cpu.la_peer_max_bio_size;
  al_stripes = be32 cpu.al_stripes;
  al_stripe_size_4k = be32 cpu.al_stripe_size_4k;
}
