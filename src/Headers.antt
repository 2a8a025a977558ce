-- ===== src/Headers.antt =====
-- The constants of the git submodule drbd-headers (linux/drbd.h, drbd_meta_data.h,
-- linux/drbd_limits.h) that the programs read. The submodule is not in the tree, so each constant
-- is a parameter; `IsHeaders` names what the code relies on.
use drbd_utils.Prelude.{ℕ, ◌+◌, ◌^◌, ◌≤◌, ◌<◌, ◌≡◌, arith}

pub record Headers : Type 0 where
  -- array bounds
  pub peers_max : ℕ
  pub node_id_max : ℕ
  pub history_uuids : ℕ
  pub history_uuids_v08 : ℕ
  -- magic numbers
  pub magic : ℕ
  pub al_magic : ℕ
  pub al_pmem_magic : ℕ
  -- the granularity of the bitmap
  pub bm_block_size_4k : ℕ
  pub bm_block_size_min : ℕ
  pub bm_block_size_max : ℕ
  -- transactions of the activity log
  pub al_updates_per_transaction : ℕ
  pub al_context_per_transaction : ℕ
  pub al_tr_update : ℕ
  pub al_tr_initialized : ℕ
  pub uuid_just_created : ℕ
  -- bit numbers of the flags MDF_*
  pub consistent : ℕ
  pub primary_ind : ℕ
  pub crashed_primary : ℕ
  pub was_up_to_date : ℕ
  pub al_clean : ℕ
  pub al_disabled : ℕ
  pub primary_lost_quorum : ℕ
  -- bit numbers of the flags MDF_PEER_*
  pub peer_connected : ℕ
  pub peer_outdated : ℕ
  pub peer_fencing : ℕ
  pub peer_full_sync : ℕ
  pub peer_device_seen : ℕ

-- A flag as the header spells it, `1 << n`.
abbrev pub flag : ℕ → ℕ
flag n = 2 ^ n

pub record IsHeaders (h : Headers) : Type 0 where
  pub peers_bounds : (2 ≤ h.peers_max) × (h.peers_max ≤ 32)
  pub nodes_fit : h.node_id_max ≡ h.peers_max
  pub magic_fits : h.magic + 6 < 2 ^ 32
  pub al_magic_fits : h.al_magic < 2 ^ 32
  -- "Our bitmap granularity is a power of two multiple of 4k, 4k to 1M"
  pub block_4k : h.bm_block_size_4k ≡ 4096
  pub block_min : h.bm_block_size_min ≡ 4096
  pub block_max : h.bm_block_size_max ≡ 2 ^ 20

-- Values that meet the conditions: those of user/v84/linux/drbd.h where it has them.
abbrev pub sample_headers : Headers
sample_headers = record {
  peers_max = 32;
  node_id_max = 32;
  history_uuids = 32;
  history_uuids_v08 = 2;
  magic = 0x83740267;
  al_magic = 0x69cb65a2;
  al_pmem_magic = 0x6aa667a6;
  bm_block_size_4k = 4096;
  bm_block_size_min = 4096;
  bm_block_size_max = 1048576;
  al_updates_per_transaction = 64;
  al_context_per_transaction = 919;
  al_tr_update = 0;
  al_tr_initialized = 0xffff;
  uuid_just_created = 4;
  consistent = 0;
  primary_ind = 1;
  crashed_primary = 6;
  was_up_to_date = 4;
  al_clean = 7;
  al_disabled = 9;
  primary_lost_quorum = 10;
  peer_connected = 0;
  peer_outdated = 1;
  peer_fencing = 2;
  peer_full_sync = 3;
  peer_device_seen = 4;
}

pub sample_headers-IsHeaders : IsHeaders sample_headers
sample_headers-IsHeaders = omega arith
