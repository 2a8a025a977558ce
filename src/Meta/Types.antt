-- ===== src/Meta/Types.antt =====
-- user/shared/drbdmeta.h: the in-core meta data and the program's state for one device.
-- An array of C is a function of its index, of which the code reads what is below its bound.
use drbd_utils.Prelude.{ℕ, ℤ, Bool}

-- enum md_format
pub data MdFormat : Type 0 where
  v06 v07 v08 v09 unknown : MdFormat

-- The values of `md_index`: a slot on a shared device, or one of DRBD_MD_INDEX_*.
pub data MdIndex : Type 0 where
  slot : ℕ → MdIndex
  internal flex_ext flex_int : MdIndex

-- struct peer_md_cpu
pub record PeerMd : Type 0 where
  pub bitmap_uuid : ℕ
  pub bitmap_dagtag : ℕ
  pub flags : ℕ
  pub bitmap_index : ℤ

-- struct md_cpu; `gc` is indexed by enum MetaDataIndex of shared_tool.h
pub record MdCpu : Type 0 where
  pub gc : ℕ → ℕ
  pub magic : ℕ
  pub effective_size : ℕ
  pub md_size_sect : ℕ
  pub al_offset : ℤ
  pub al_nr_extents : ℕ
  pub bm_offset : ℤ
  pub current_uuid : ℕ
  pub history_uuids : ℕ → ℕ
  pub flags : ℕ
  pub device_uuid : ℕ
  pub bm_bytes_per_bit : ℕ
  pub la_peer_max_bio_size : ℕ
  pub max_peers : ℕ
  pub node_id : ℤ
  pub peers : ℕ → PeerMd
  pub al_stripes : ℕ
  pub al_stripe_size_4k : ℕ
  pub members : ℕ

-- struct format, without the descriptors and the device; `version` stands for `ops`
pub record Format : Type 0 where
  pub version : MdFormat
  pub md_hard_sect_size : ℕ
  pub md_index : MdIndex
  pub bm_bytes : ℕ
  pub bits_set : ℕ
  pub update_lk_bdev : Bool
  pub md : MdCpu
  pub md_offset : ℕ
  pub al_offset : ℕ
  pub bm_offset : ℕ
  pub wipe_fixed : ℕ
  pub wipe_flex : ℕ
  pub wipe_resize : ℕ
  pub bd_size : ℕ
  pub max_usable_sect : ℕ
