-- ===== src/Meta/Disk/RoundTrip.antt =====
-- Writing a super block and reading it back.
use drbd_utils.Prelude.{
  refl, pos, ℕ, ◌+◌, ◌-◌, ◌≤◌, ◌<◌, ◌≡◌, sym, fun_ext, ltb, ◌==◌, if◌then◌else◌, Bool-cases, inl,
  inr, arith, ℤ, s32, bits32, IsS32, s32-bits32, bits32-lt, ltb→lt, lt→ltb,
}
use drbd_utils.Headers.{Headers}
use drbd_utils.Endian.{be32, be64}
use drbd_utils.Endian.Laws.{swab32-swab32, swab64-swab64}
use drbd_utils.Meta.Types.{PeerMd, MdCpu}
use drbd_utils.Meta.Disk.Base.{zero_peer}
use drbd_utils.Meta.Disk.Nine.{
  md_disk_09_to_cpu, md_cpu_to_disk_09, peer_to_cpu, peer_to_disk, zero_peer_on_disk,
}
use drbd_utils.Meta.Disk.Eight.{md_disk_08_to_cpu, md_cpu_to_disk_08, unset_stripes, stored_uuid}
use drbd_utils.Meta.Disk.Wide.{kept_08, FitsPeer, Fits08, Fits09}

signed_back : (z : ℤ) → IsS32 z → s32 (be32 (be32 (bits32 z))) ≡ z
signed_back z h = rw (swab32-swab32 (bits32 z) (bits32-lt z)) (s32-bits32 z h)

peer_back : (p : PeerMd) → FitsPeer p → peer_to_cpu (peer_to_disk p) ≡ p
unfolding peer_to_cpu peer_to_disk
peer_back p f = λ i. record {
  bitmap_uuid = swab64-swab64 p.bitmap_uuid f.bitmap_uuid i;
  bitmap_dagtag = swab64-swab64 p.bitmap_dagtag f.bitmap_dagtag i;
  flags = swab32-swab32 p.flags f.flags i;
  bitmap_index = signed_back p.bitmap_index f.bitmap_index i;
}

-- An array that is stored below a bound, and reads as `d` above it.
array_back {ℓ} :
    {A : Type ℓ} (a b : ℕ → A) (d : A) (n : ℕ)
    → ((i : ℕ) → i < n → b i ≡ a i)
    → ((i : ℕ) → n ≤ i → a i ≡ d)
    → (λ i. if ltb i n then b i else d) ≡ a
array_back a b d n low high = fun_ext λ i. elim (Bool-cases (ltb i n)) [
  | inl p ↦ rw p (low i (ltb→lt i n p))
  | inr p ↦ rw p (sym (high i (ground arith)))
]

kept : (a b top : ℕ) → a ≡ b → b ≤ top → (if ltb top a then top else a) ≡ b
kept a b top e le = ground arith

-- The first `n` entries of an array.
abbrev cut : ℕ → (ℕ → ℕ) → ℕ → ℕ
cut n a i = if ltb i n then a i else 0

cut_back : (a b : ℕ → ℕ) (n : ℕ) → ((i : ℕ) → i < n → b i ≡ a i) → cut n b ≡ cut n a
cut_back a b n low =
    fun_ext
      λ i. elim (Bool-cases (ltb i n)) [ inl p ↦ rw p (low i (ltb→lt i n p)) | inr p ↦ rw p refl ]

set_stripes :
    (s z a b d c : ℕ) {x : ℕ}
    → s ≡ a
    → z ≡ b
    → 0 < a + b
    → x ≡ c
    → (if unset_stripes s z then d else x) ≡ c
set_stripes s z a b d c e f g k = ground arith

module _ (h : Headers) (m : MdCpu) where
  -- What is written to a super block of format 9 reads back the same, provided that the words fit
  -- their fields, that there are at most peers_max - 1 peers, that the arrays are clear past their
  -- bounds, and that the counters `gc` of the older formats are 0.
  pub disk_09-back : Fits09 h m → md_disk_09_to_cpu h (md_cpu_to_disk_09 h m) ≡ m
  unfolding md_disk_09_to_cpu md_cpu_to_disk_09
  disk_09-back f =
      let c = f.common in
      let low_peer : (p : ℕ)
          → p < h.node_id_max
          → peer_to_cpu
              (if ltb p h.node_id_max then peer_to_disk (m.peers p) else zero_peer_on_disk)
            ≡ m.peers p =
        λ p q. rw (lt→ltb p h.node_id_max q) (peer_back (m.peers p) (f.peers p q)) in
      let low_uuid : (i : ℕ)
          → i < h.history_uuids
          → be64 (if ltb i h.history_uuids then be64 (m.history_uuids i) else 0)
            ≡ m.history_uuids i =
        λ i q. rw (lt→ltb i h.history_uuids q) (swab64-swab64 _ (f.history i q)) in
      let peers = swab32-swab32 m.max_peers f.max_peers.1 in
      λ i. record {
        gc = fun_ext (λ k. sym (f.no_gc k)) i;
        magic = swab32-swab32 _ c.magic i;
        effective_size = swab64-swab64 _ c.effective_size i;
        md_size_sect = swab32-swab32 _ c.md_size_sect i;
        al_offset = signed_back _ c.al_offset i;
        al_nr_extents = swab32-swab32 _ c.al_nr_extents i;
        bm_offset = signed_back _ c.bm_offset i;
        current_uuid = swab64-swab64 _ c.current_uuid i;
        history_uuids = array_back m.history_uuids _ 0 h.history_uuids low_uuid f.no_history i;
        flags = swab32-swab32 _ c.flags i;
        device_uuid = swab64-swab64 _ c.device_uuid i;
        bm_bytes_per_bit = swab32-swab32 _ c.bm_bytes_per_bit i;
        la_peer_max_bio_size = swab32-swab32 _ c.la_peer_max_bio_size i;
        max_peers =
            kept (be32 (be32 m.max_peers)) m.max_peers (h.peers_max - 1) peers f.max_peers.0 i;
        node_id = signed_back _ f.node_id i;
        peers = array_back m.peers _ zero_peer h.node_id_max low_peer f.no_peers i;
        al_stripes = swab32-swab32 _ c.al_stripes i;
        al_stripe_size_4k = swab32-swab32 _ c.al_stripe_size_4k i;
        members = swab64-swab64 _ f.members i;
      }

  -- What is written to a super block of format 8 reads back as what the format keeps (kept_08): all
  -- but the node id, the members, the counters of the older formats, the peers but for the UUID of
  -- the bitmap of the first, and the older part of the history. The words that are kept fit their
  -- fields, and the two words of log geometry are not both zero.
  pub disk_08-back : Fits08 h m → md_disk_08_to_cpu h (md_cpu_to_disk_08 h m) ≡ kept_08 h m
  unfolding md_disk_08_to_cpu md_cpu_to_disk_08
  disk_08-back f =
      let c = f.common in
      let low_uuid : (i : ℕ)
          → i < h.history_uuids_v08
          → be64 (stored_uuid h m (2 + i)) ≡ m.history_uuids i =
        λ i q. ground (arith, swab64-swab64 (m.history_uuids i), f.history i) in
      let stripes = swab32-swab32 _ c.al_stripes in
      let size = swab32-swab32 _ c.al_stripe_size_4k in
      λ i. record {
        gc = λ k. 0;
        magic = swab32-swab32 _ c.magic i;
        effective_size = swab64-swab64 _ c.effective_size i;
        md_size_sect = swab32-swab32 _ c.md_size_sect i;
        al_offset = signed_back _ c.al_offset i;
        al_nr_extents = swab32-swab32 _ c.al_nr_extents i;
        bm_offset = signed_back _ c.bm_offset i;
        current_uuid = swab64-swab64 _ c.current_uuid i;
        history_uuids = cut_back m.history_uuids _ h.history_uuids_v08 low_uuid i;
        flags = swab32-swab32 _ c.flags i;
        device_uuid = swab64-swab64 _ c.device_uuid i;
        bm_bytes_per_bit = swab32-swab32 _ c.bm_bytes_per_bit i;
        la_peer_max_bio_size = swab32-swab32 _ c.la_peer_max_bio_size i;
        max_peers = 1;
        node_id = pos 0;
        peers = λ p.
            if p == 0
            then record zero_peer { bitmap_uuid = swab64-swab64 _ f.bitmap_uuid i }
            else zero_peer;
        al_stripes = set_stripes _ _ _ _ 1 m.al_stripes stripes size f.geometry stripes i;
        al_stripe_size_4k =
            set_stripes _ _ _ _ 8 m.al_stripe_size_4k stripes size f.geometry size i;
        members = 0;
      }
