-- ===== src/Meta/Disk/Old.antt =====
-- user/shared/drbdmeta.c: the super blocks of DRBD 0.6 and 0.7.
use drbd_utils.Prelude.{ℕ, ◌*◌, ◌/◌, s32, bits32, u32, u64, ltb, if◌then◌else◌}
use drbd_utils.Headers.{Headers}
use drbd_utils.Endian.{be32, be64}
use drbd_utils.Meta.Types.{MdCpu}
use drbd_utils.Meta.Disk.Base.{zero_md, gen_cnt_size}

-- struct md_on_disk_06
pub record MdOnDisk06 : Type 0 where
  pub gc : ℕ → ℕ
  pub magic : ℕ

unfoldable pub md_disk_06_to_cpu : MdOnDisk06 → MdCpu
md_disk_06_to_cpu disk = record zero_md {
  gc = λ i. if ltb i gen_cnt_size then be32 (disk.gc i) else 0;
  magic = be32 disk.magic;
  max_peers = 1;
}

-- The array of `disk` keeps what stands past the bound.
unfoldable pub md_cpu_to_disk_06 : MdOnDisk06 → MdCpu → MdOnDisk06
md_cpu_to_disk_06 disk cpu = record {
  gc = λ i. if ltb i gen_cnt_size then be32 (cpu.gc i) else disk.gc i;
  magic = be32 cpu.magic;
}

-- struct md_on_disk_07; `reserved` is all zero after a conversion and never read
pub record MdOnDisk07 : Type 0 where
  pub la_kb : ℕ
  pub gc : ℕ → ℕ
  pub magic : ℕ
  pub md_size_kb : ℕ
  pub al_offset : ℕ
  pub al_nr_extents : ℕ
  pub bm_offset : ℕ

unfoldable pub md_disk_07_to_cpu : Headers → MdOnDisk07 → MdCpu
md_disk_07_to_cpu h disk = record zero_md {
  effective_size = u64 (be64 disk.la_kb * 2);
  gc = λ i. if ltb i gen_cnt_size then be32 (disk.gc i) else 0;
  magic = be32 disk.magic;
  md_size_sect = u32 (be32 disk.md_size_kb * 2);
  al_offset = s32 (be32 disk.al_offset);
  al_nr_extents = be32 disk.al_nr_extents;
  bm_offset = s32 (be32 disk.bm_offset);
  bm_bytes_per_bit = h.bm_block_size_4k;
  max_peers = 1;
  al_stripes = 1;
  al_stripe_size_4k = 8;
}

unfoldable pub md_cpu_to_disk_07 : MdOnDisk07 → MdCpu → MdOnDisk07
md_cpu_to_disk_07 disk cpu = record {
  la_kb = be64 (cpu.effective_size / 2);
  gc = λ i. if ltb i gen_cnt_size then be32 (cpu.gc i) else disk.gc i;
  magic = be32 cpu.magic;
  md_size_kb = be32 (cpu.md_size_sect / 2);
  al_offset = be32 (bits32 cpu.al_offset);
  al_nr_extents = be32 cpu.al_nr_extents;
  bm_offset = be32 (bits32 cpu.bm_offset);
}
