-- ===== src/Meta/Disk/Nine.antt =====
-- user/shared/drbdmeta.c: the super block of DRBD 9.
use drbd_utils.Prelude.{ℕ, ◌-◌, s32, bits32, ltb, if◌then◌else◌}
use drbd_utils.Headers.{Headers}
use drbd_utils.Endian.{be32, be64}
use drbd_utils.Meta.Types.{PeerMd, MdCpu}
use drbd_utils.Meta.Disk.Base.{zero_peer, zero_md}

pub record PeerOnDisk : Type 0 where
  pub bitmap_uuid : ℕ
  pub bitmap_dagtag : ℕ
  pub flags : ℕ
  pub bitmap_index : ℕ

-- struct meta_data_on_disk_9
pub record MdOnDisk09 : Type 0 where
  pub effective_size : ℕ
  pub current_uuid : ℕ
  pub members : ℕ
  pub device_uuid : ℕ
  pub flags : ℕ
  pub magic : ℕ
  pub md_size_sect : ℕ
  pub al_offset : ℕ
  pub al_nr_extents : ℕ
  pub bm_offset : ℕ
  pub bm_bytes_per_bit : ℕ
  pub la_peer_max_bio_size : ℕ
  pub bm_max_peers : ℕ
  pub node_id : ℕ
  pub al_stripes : ℕ
  pub al_stripe_size_4k : ℕ
  pub peers : ℕ → PeerOnDisk
  pub history_uuids : ℕ → ℕ

unfoldable pub peer_to_cpu : PeerOnDisk → PeerMd
peer_to_cpu p = record {
  flags = be32 p.flags;
  bitmap_index = s32 (be32 p.bitmap_index);
  bitmap_uuid = be64 p.bitmap_uuid;
  bitmap_dagtag = be64 p.bitmap_dagtag;
}

unfoldable pub peer_to_disk : PeerMd → PeerOnDisk
peer_to_disk p = record {
  flags = be32 p.flags;
  bitmap_index = be32 (bits32 p.bitmap_index);
  bitmap_uuid = be64 p.bitmap_uuid;
  bitmap_dagtag = be64 p.bitmap_dagtag;
}

unfoldable pub zero_peer_on_disk : PeerOnDisk
zero_peer_on_disk = record { flags = 0; bitmap_index = 0; bitmap_uuid = 0; bitmap_dagtag = 0 }

unfoldable pub md_disk_09_to_cpu : Headers → MdOnDisk09 → MdCpu
unfolding peer_to_cpu
md_disk_09_to_cpu h disk =
    let max_peers = be32 disk.bm_max_peers in
    record zero_md {
      effective_size = be64 disk.effective_size;
      device_uuid = be64 disk.device_uuid;
      flags = be32 disk.flags;
      members = be64 disk.members;
      magic = be32 disk.magic;
      md_size_sect = be32 disk.md_size_sect;
      al_offset = s32 (be32 disk.al_offset);
      al_nr_extents = be32 disk.al_nr_extents;
      bm_offset = s32 (be32 disk.bm_offset);
      bm_bytes_per_bit = be32 disk.bm_bytes_per_bit;
      la_peer_max_bio_size = be32 disk.la_peer_max_bio_size;
      max_peers = if ltb (h.peers_max - 1) max_peers then h.peers_max - 1 else max_peers;
      node_id = s32 (be32 disk.node_id);
      al_stripes = be32 disk.al_stripes;
      al_stripe_size_4k = be32 disk.al_stripe_size_4k;
      current_uuid = be64 disk.current_uuid;
      peers = λ p. if ltb p h.node_id_max then peer_to_cpu (disk.peers p) else zero_peer;
      history_uuids = λ i. if ltb i h.history_uuids then be64 (disk.history_uuids i) else 0;
    }

unfoldable pub md_cpu_to_disk_09 : Headers → MdCpu → MdOnDisk09
unfolding peer_to_disk zero_peer_on_disk
md_cpu_to_disk_09 h cpu = record {
  effective_size = be64 cpu.effective_size;
  device_uuid = be64 cpu.device_uuid;
  flags = be32 cpu.flags;
  members = be64 cpu.members;
  magic = be32 cpu.magic;
  md_size_sect = be32 cpu.md_size_sect;
  al_offset = be32 (bits32 cpu.al_offset);
  al_nr_extents = be32 cpu.al_nr_extents;
  bm_offset = be32 (bits32 cpu.bm_offset);
  bm_bytes_per_bit = be32 cpu.bm_bytes_per_bit;
  la_peer_max_bio_size = be32 cpu.la_peer_max_bio_size;
  bm_max_peers = be32 cpu.max_peers;
  node_id = be32 (bits32 cpu.node_id);
  al_stripes = be32 cpu.al_stripes;
  al_stripe_size_4k = be32 cpu.al_stripe_size_4k;
  current_uuid = be64 cpu.current_uuid;
  peers = λ p. if ltb p h.node_id_max then peer_to_disk (cpu.peers p) else zero_peer_on_disk;
  history_uuids = λ i. if ltb i h.history_uuids then be64 (cpu.history_uuids i) else 0;
}
