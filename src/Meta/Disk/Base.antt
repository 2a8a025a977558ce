-- ===== src/Meta/Disk/Base.antt =====
-- user/shared/drbdmeta.c: the cleared in-core meta data, and the indices of the arrays of
-- the super blocks (enum MetaDataIndex of shared_tool.h, enum drbd_uuid_index).
use drbd_utils.Prelude.{ℕ, pos}
use drbd_utils.Meta.Types.{PeerMd, MdCpu}

-- memset(cpu, 0, sizeof(*cpu))
abbrev pub zero_peer : PeerMd
zero_peer = record { bitmap_uuid = 0; bitmap_dagtag = 0; flags = 0; bitmap_index = pos 0 }

abbrev pub zero_md : MdCpu
zero_md = record {
  gc = λ _. 0;
  magic = 0;
  effective_size = 0;
  md_size_sect = 0;
  al_offset = pos 0;
  al_nr_extents = 0;
  bm_offset = pos 0;
  current_uuid = 0;
  history_uuids = λ _. 0;
  flags = 0;
  device_uuid = 0;
  bm_bytes_per_bit = 0;
  la_peer_max_bio_size = 0;
  max_peers = 0;
  node_id = pos 0;
  peers = λ _. zero_peer;
  al_stripes = 0;
  al_stripe_size_4k = 0;
  members = 0;
}

-- enum MetaDataIndex of shared_tool.h
abbrev pub gen_cnt_size : ℕ
gen_cnt_size = 5

abbrev pub ui_current : ℕ
ui_current = 0

abbrev pub ui_bitmap : ℕ
ui_bitmap = 1

abbrev pub ui_history_start : ℕ
ui_history_start = 2
