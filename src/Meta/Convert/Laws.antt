-- ===== src/Meta/Convert/Laws.antt =====
-- What the conversions keep, and that they never reach "This is a bug".
use drbd_utils.Prelude.{
  ℕ, zero, suc, ◌+◌, ◌-◌, ◌^◌, ◌<◌, ◌≤◌, ◌≡◌, ◌≢◌, ◌⊎◌, refl, Bool, true, false, negsuc, le→leb,
  ltb, ◌==◌, if◌then◌else◌, Result, ok, stop, ◌>>=◌, arith,
}
use drbd_utils.Prelude.Bits.{
  bit, bit-lt, bit_ext, bit-bit_and, bit-bit_or, bit-bit_xor, bit-pow, bit-ones, bit-zero,
  bit_of_lt,
}
use drbd_utils.Headers.{Headers, IsHeaders}
use drbd_utils.Meta.Types.{MdFormat, v09, internal, MdCpu, Format}
use drbd_utils.Meta.Layout.{re_initialize_md_offsets}
use drbd_utils.Meta.Valid.{has_layout, header_fits, slots_in_range}
use drbd_utils.Meta.Valid.Layout.{al_sectors, re_initialize_md_offsets-is_valid_md}
use drbd_utils.Meta.Flags.{has}
use drbd_utils.Meta.Flags.Laws.{bit-raise, has-bit}
use drbd_utils.Meta.Convert.{
  connected_ind, full_sync, peer_out_dated, copy_flag, first_flags, strip, restore_flags,
  md_08_as_09, md_09_as_08, check_converted, md_convert_08_to_09,
}

bit-strip :
    (k x : ℕ)
    → x < 2 ^ 32
    → bit k (strip x) ≡ (if k == 2 then 0 else if k == 3 then 0 else if k == 5 then 0 else bit k x)
unfolding strip
bit-strip k x h =
    let ones : bit k (2 ^ 32 - 1) ≡ (if ltb k 32 then 1 else 0) = bit-ones k 32 in
    rw
      (
        bit-bit_and,
        bit-bit_xor,
        bit-bit_or,
        bit-bit_or,
        bit-pow k 2,
        bit-pow k 3,
        bit-pow k 5,
        ones,
      )
      (ground (arith, bit-lt k x, bit_of_lt 32 k x))

bit-copy_flag :
    (k x n : ℕ) (b : Bool)
    → bit k (copy_flag b x n) ≡ (if b then (if k == n then 1 else bit k x) else bit k x)
bit-copy_flag k x n true = bit-raise k x n
bit-copy_flag k x n false = refl

-- The three peer flags have different bits.
pub record IsApart (h : Headers) : Type 0 where
  pub connected-full_sync : h.peer_connected ≢ h.peer_full_sync
  pub connected-outdated : h.peer_connected ≢ h.peer_outdated
  pub full_sync-outdated : h.peer_full_sync ≢ h.peer_outdated

module _ (h : Headers) (a : IsApart h) where
  first_has :
      (x : ℕ)
      → (has (first_flags h 0 x) h.peer_connected ≡ has x 2)
        × (has (first_flags h 0 x) h.peer_full_sync ≡ has x 3)
        × (has (first_flags h 0 x) h.peer_outdated ≡ has x 5)
  unfolding first_flags
  first_has x =
      let two = has-bit x 2 in
      (
        simp (has-bit, bit-copy_flag, bit-zero)
            (ground (arith, a.connected-full_sync, a.connected-outdated)),
        simp (has-bit, bit-copy_flag, bit-zero) (ground arith),
        simp (has-bit, bit-copy_flag, bit-zero) (ground arith),
      )

  restore-first_flags : (x : ℕ) → x < 2 ^ 32 → restore_flags h (first_flags h 0 x) (strip x) ≡ x
  unfolding restore_flags
  restore-first_flags x lt =
      let (c, f, o) = first_has x in
      bit_ext _ x λ k.
        rw
          (
            c,
            f,
            o,
            bit-copy_flag,
            bit-copy_flag,
            bit-copy_flag,
            bit-strip k x lt,
            has-bit x 2,
            has-bit x 3,
            has-bit x 5,
          )
          (ground (arith, bit-lt k x))

  -- From format 8 to 9 and back, the flags of the device are as before; in between the three flags
  -- that format 9 keeps for each peer are clear, and stand in the flags of the first peer instead.
  -- The flags fit 32 bits, there is at least one node id, and the three flags of a peer are
  -- different bits.
  pub flags-md_09_as_08 :
      (md : MdCpu)
      → md.flags < 2 ^ 32
      → 0 < h.node_id_max
      → let mid = md_08_as_09 h md in
        ((md_09_as_08 h mid).flags ≡ md.flags)
        × ((has mid.flags connected_ind ≡ false)
            × ((has mid.flags full_sync ≡ false)
                × ((has mid.flags peer_out_dated ≡ false)
                    × ((has (mid.peers 0).flags h.peer_connected ≡ has md.flags connected_ind)
                        × ((has (mid.peers 0).flags h.peer_full_sync ≡ has md.flags full_sync)
                            × (has (mid.peers 0).flags h.peer_outdated
                                ≡ has md.flags peer_out_dated))))))
  unfolding md_09_as_08 md_08_as_09
  flags-md_09_as_08 md lt node =
      let e : ltb 0 h.node_id_max ≡ true = ground arith in
      let (c, f, o) = first_has md.flags in
      let out = λ (k : ℕ). bit-strip k md.flags lt in
      rw e (
        restore-first_flags md.flags lt,
        (rw (has-bit, out 2), (rw (has-bit, out 3), (rw (has-bit, out 5), (c, (f, o))))),
      )

-- A conversion that ends with a valid header is what re_initialize_md_offsets() makes of it.
check_never_fails :
    (h : Headers) (f : MdFormat) (option : ℕ) (cfg : Format)
    → IsHeaders h
    → has_layout f ≡ true
    → header_fits h f cfg.md ≡ true
    → (cfg.md_index ≢ internal) ⊎ (al_sectors cfg.md ≡ 64)
    → al_sectors cfg.md ≤ 2 ^ 26
    → (re_initialize_md_offsets h option cfg >>= check_converted h f)
      ≡ re_initialize_md_offsets h option cfg
unfolding check_converted
check_never_fails h f option cfg hs known fits shape le =
    go (re_initialize_md_offsets h option cfg) refl
  where
    go :
        (m : Result Format)
        → re_initialize_md_offsets h option cfg ≡ m
        → (m >>= check_converted h f) ≡ m
    go (stop e) run = refl
    go (ok r) run =
        rw (re_initialize_md_offsets-is_valid_md h f option cfg r hs known fits shape le run)

index_cleared :
    (h : Headers) (md : MdCpu) (p : ℕ)
    → p < h.node_id_max
    → ((md_08_as_09 h md).peers p).bitmap_index ≡ negsuc 0
unfolding md_08_as_09
index_cleared h md zero lt = let e : ltb 0 h.node_id_max ≡ true = ground arith in rw e
index_cleared h md (suc p) lt =
    let e : ltb (suc p) h.node_id_max ≡ true = ground arith in
    let z : (suc p == 0) ≡ false = ground arith in rw (z, e)

slots_cleared :
    (h : Headers) (md : MdCpu) (n : ℕ)
    → n ≤ h.node_id_max
    → slots_in_range h (md_08_as_09 h md) n ≡ true
unfolding slots_in_range
slots_cleared h md zero le = refl
slots_cleared h md (suc n) le = rw (slots_cleared h md n (omega arith), index_cleared h md n le)

header_fits-md_08_as_09 :
    (h : Headers) (md : MdCpu)
    → IsHeaders h
    → (1 ≤ md.max_peers) × (md.max_peers ≤ h.peers_max - 1)
    → header_fits h v09 (md_08_as_09 h md) ≡ true
unfolding header_fits
header_fits-md_08_as_09 h md hs (lo, hi) =
    let slots = slots_cleared h md md.max_peers (omega (arith, hs.nodes_fit)) in
    let head : (md_08_as_09 h md).magic ≡ h.magic + 6 = unfold md_08_as_09 in refl in
    let node : (md_08_as_09 h md).node_id ≡ negsuc 0 = unfold md_08_as_09 in refl in
    let count : (md_08_as_09 h md).max_peers ≡ md.max_peers = unfold md_08_as_09 in refl in
    rw (head, node, count, slots, le→leb 1 md.max_peers lo, le→leb md.max_peers _ hi) (ground arith)

-- The conversion from format 8 to 9 never reports "This is a bug": its outcome is that of
-- re_initialize_md_offsets(), given what the code relies on in the headers, if the number of peers
-- is in range and the activity log has at most 2^26 sectors, exactly 64 in the fixed internal
-- layout.
pub md_convert_08_to_09-never_fails :
    (h : Headers) (option : ℕ) (cfg : Format)
    → IsHeaders h
    → (1 ≤ cfg.md.max_peers) × (cfg.md.max_peers ≤ h.peers_max - 1)
    → (cfg.md_index ≢ internal) ⊎ (al_sectors cfg.md ≡ 64)
    → al_sectors cfg.md ≤ 2 ^ 26
    → md_convert_08_to_09 h option cfg
      ≡ re_initialize_md_offsets h option (record cfg { md = md_08_as_09 h cfg.md })
unfolding md_convert_08_to_09 md_08_as_09
md_convert_08_to_09-never_fails h option cfg hs peers shape le =
    check_never_fails h v09 option (record cfg { md = md_08_as_09 h cfg.md }) hs refl
      (header_fits-md_08_as_09 h cfg.md hs peers) shape le
