-- ===== src/Meta/Disk/Wide.antt =====
-- What fits the fields on disk: words below their width, and nothing past the end of an array.
use drbd_utils.Prelude.{ℕ, ◌-◌, ◌+◌, ◌^◌, ◌≤◌, ◌<◌, ◌≡◌, pos, IsS32, ltb, ◌==◌, if◌then◌else◌}
use drbd_utils.Headers.{Headers}
use drbd_utils.Meta.Types.{PeerMd, MdCpu}
use drbd_utils.Meta.Disk.Base.{zero_peer}

pub record FitsPeer (p : PeerMd) : Type 0 where
  pub bitmap_uuid : p.bitmap_uuid < 2 ^ 64
  pub bitmap_dagtag : p.bitmap_dagtag < 2 ^ 64
  pub flags : p.flags < 2 ^ 32
  pub bitmap_index : IsS32 p.bitmap_index

-- The words that the formats 8 and 9 share.
pub record FitsCommon (m : MdCpu) : Type 0 where
  pub magic : m.magic < 2 ^ 32
  pub effective_size : m.effective_size < 2 ^ 64
  pub md_size_sect : m.md_size_sect < 2 ^ 32
  pub al_offset : IsS32 m.al_offset
  pub al_nr_extents : m.al_nr_extents < 2 ^ 32
  pub bm_offset : IsS32 m.bm_offset
  pub current_uuid : m.current_uuid < 2 ^ 64
  pub flags : m.flags < 2 ^ 32
  pub device_uuid : m.device_uuid < 2 ^ 64
  pub bm_bytes_per_bit : m.bm_bytes_per_bit < 2 ^ 32
  pub la_peer_max_bio_size : m.la_peer_max_bio_size < 2 ^ 32
  pub al_stripes : m.al_stripes < 2 ^ 32
  pub al_stripe_size_4k : m.al_stripe_size_4k < 2 ^ 32

-- An in-core state that a super block of format 9 can hold.
pub record Fits09 (h : Headers) (m : MdCpu) : Type 0 where
  pub common : FitsCommon m
  pub members : m.members < 2 ^ 64
  pub max_peers : (m.max_peers ≤ h.peers_max - 1) × (m.max_peers < 2 ^ 32)
  pub node_id : IsS32 m.node_id
  pub peers : (p : ℕ) → p < h.node_id_max → FitsPeer (m.peers p)
  pub no_peers : (p : ℕ) → h.node_id_max ≤ p → m.peers p ≡ zero_peer
  pub history : (i : ℕ) → i < h.history_uuids → m.history_uuids i < 2 ^ 64
  pub no_history : (i : ℕ) → h.history_uuids ≤ i → m.history_uuids i ≡ 0
  pub no_gc : (i : ℕ) → m.gc i ≡ 0

-- The words that a super block of format 8 keeps fit it, and the geometry of the log is set.
pub record Fits08 (h : Headers) (m : MdCpu) : Type 0 where
  pub common : FitsCommon m
  pub bitmap_uuid : (m.peers 0).bitmap_uuid < 2 ^ 64
  pub history : (i : ℕ) → i < h.history_uuids_v08 → m.history_uuids i < 2 ^ 64
  pub geometry : 0 < m.al_stripes + m.al_stripe_size_4k

-- What format 8 keeps of a state: one peer, of it the UUID of the bitmap only, and a short history;
-- neither the node id nor the members, nor the counters of the older formats.
abbrev pub kept_08 : Headers → MdCpu → MdCpu
kept_08 h m = record m {
  gc = λ i. 0;
  node_id = pos 0;
  members = 0;
  max_peers = 1;
  peers =
      λ p. if p == 0 then record zero_peer { bitmap_uuid = (m.peers 0).bitmap_uuid } else zero_peer;
  history_uuids = λ i. if ltb i h.history_uuids_v08 then m.history_uuids i else 0;
}
