-- ===== src/Meta/Valid/Layout.antt =====
-- The layouts that re_initialize_md_offsets() sets pass is_valid_md().
use drbd_utils.Prelude.{
  ℕ, zero, suc, ◌+◌, ◌-◌, ◌*◌, ◌/◌, ◌%◌, ◌^◌, ◌≤◌, ◌≡◌, ◌≢◌, ◌⊎◌, inl, inr, refl, Bool, true, false,
  pos, neg_ℤ, eq_ℤ, u32, ltb, ◌==◌, Result, ok, ◌>>◌, >>=-eq-ok, ok-injective, exit_if, arith,
}
use drbd_utils.Headers.{Headers, IsHeaders}
use drbd_utils.Meta.Types.{MdFormat, MdIndex, slot, internal, flex_ext, flex_int, MdCpu, Format}
use drbd_utils.Meta.Layout.{
  align, bm_bytes, al_size_sect, Layout, layout, from_front, flexible_internal, with_layout,
  total_sect, offset_below, offset_behind, stored, sane_defaults, re_initialize_md_offsets,
  max_usable_sectors,
}
use drbd_utils.Meta.Valid.{
  has_layout, header_fits, slots_in_range, offsets_fit, front_fits, flexible_fits, is_valid_md,
  expected_below,
}

-- Sectors of the activity log, as the program means them.
abbrev pub al_sectors : MdCpu → ℕ
al_sectors md = md.al_stripes * md.al_stripe_size_4k * 8

pub al_size_sect-al_sectors :
    (md : MdCpu) → al_sectors md ≤ 2 ^ 26 → al_size_sect md ≡ pos (al_sectors md)
unfolding al_size_sect
al_size_sect-al_sectors md le = ground arith

slots_in_range-congr :
    (h : Headers) (a b : MdCpu) (n : ℕ)
    → a.peers ≡ b.peers
    → slots_in_range h a n ≡ slots_in_range h b n
unfolding slots_in_range
slots_in_range-congr h a b zero e = refl
slots_in_range-congr h a b (suc n) e = rw (slots_in_range-congr h a b n e, e)

header_fits-with_layout :
    (h : Headers) (f : MdFormat) (md : MdCpu) (l : Layout)
    → header_fits h f (with_layout md l) ≡ header_fits h f md
unfolding header_fits
header_fits-with_layout h f md l =
    rw (slots_in_range-congr h (with_layout md l) md md.max_peers refl)

pub header_fits-peers :
    (h : Headers) (f : MdFormat) (md : MdCpu)
    → header_fits h f md ≡ true
    → (1 ≤ md.max_peers) × (md.max_peers ≤ h.peers_max - 1)
unfolding header_fits
header_fits-peers h f md e = ground arith

header_fits-sane_defaults :
    (h : Headers) (f : MdFormat) (option : ℕ) (md : MdCpu)
    → header_fits h f md ≡ true
    → (header_fits h f (sane_defaults h option md) ≡ true)
      × ((sane_defaults h option md).max_peers ≡ md.max_peers)
unfolding header_fits sane_defaults
header_fits-sane_defaults h f option md e =
    let (some_peer, most) = header_fits-peers h f md e in
    let set : (md.max_peers == 0) ≡ false = ground arith in
    let same = slots_in_range-congr h (sane_defaults h option md) md md.max_peers refl in
    (rw (set, same) e, rw set)

-- The numbers of the layouts: `b` sectors of bitmap, `a` of activity log.
module _ (a b : ℕ) (al : a ≤ 2 ^ 26) (bm : b ≤ 2 ^ 26 * 31) where
  size_eq : total_sect b (pos a) ≡ b + 8 + a
  unfolding total_sect
  size_eq = ground arith

  front_eq : eq_ℤ (stored (offset_behind (pos a))) (offset_behind (pos a)) ≡ true
  unfolding stored offset_behind
  front_eq = ground arith

  log_eq : eq_ℤ (stored (neg_ℤ (pos a))) (neg_ℤ (pos a)) ≡ true
  unfolding stored neg_ℤ
  log_eq = ground arith

  bitmap_eq : eq_ℤ (offset_below (b + 8 + a)) (expected_below (b + 8 + a)) ≡ true
  unfolding offset_below expected_below neg_ℤ
  bitmap_eq = ground arith

  total_eq : ((b + 8 + a) % 2 ^ 32 == (b + 8 + a)) ≡ true
  total_eq = ground arith

front :
    (md : MdCpu) (size : ℕ)
    → al_sectors md ≤ 2 ^ 26
    → front_fits (with_layout md (from_front size (stored (offset_behind (al_size_sect md)))))
      ≡ true
unfolding front_fits from_front stored offset_behind al_size_sect
front md size le = rw (al_size_sect-al_sectors md le, front_eq (al_sectors md) 0 le (omega arith))

exit_if-eq-ok : (b : Bool) (code : ℕ) {u : Unit {0}} → exit_if b code ≡ ok u → b ≡ false
exit_if-eq-ok true code e = cc
exit_if-eq-ok false code e = refl

module _ (h : Headers) (md : MdCpu) (bd : ℕ) where
  abbrev pub flexible_of : ℕ → Layout
  flexible_of bytes =
      let md_size = total_sect (align (bytes / 2 ^ 9) 8) (al_size_sect md) in
      record {
        md_size_sect = u32 md_size;
        al_offset = stored (neg_ℤ (al_size_sect md));
        bm_offset = offset_below md_size;
        bm_bytes = bytes;
      }

  flexible_rest : ℕ → Result Layout
  flexible_rest bytes =
      exit_if (ltb (2 ^ 26 * md.max_peers) (align (bytes / 2 ^ 9) 8)) 10 >> ok (flexible_of bytes)

  flexible_rest-ok :
      (bytes : ℕ) (l : Layout)
      → flexible_rest bytes ≡ ok l
      → (align (bytes / 2 ^ 9) 8 ≤ 2 ^ 26 * md.max_peers) × (flexible_of bytes ≡ l)
  unfolding flexible_rest
  flexible_rest-ok bytes l run =
      let (u, passed, made) =
        >>=-eq-ok (exit_if (ltb (2 ^ 26 * md.max_peers) (align (bytes / 2 ^ 9) 8)) 10) _ run in
      let small = exit_if-eq-ok _ 10 passed in (ground arith, ok-injective made)

  -- What a successful run of the flexible internal case did.
  pub flexible_internal-ok :
      (l : Layout)
      → flexible_internal h md bd ≡ ok l
      → (bytes : ℕ) × (bm_bytes h md (bd / 2 ^ 9) ≡ ok bytes)
        × (align (bytes / 2 ^ 9) 8 ≤ 2 ^ 26 * md.max_peers)
        × (flexible_of bytes ≡ l)
  unfolding flexible_internal flexible_rest
  flexible_internal-ok l run =
      let (bytes, got, rest) = >>=-eq-ok (bm_bytes h md (bd / 2 ^ 9)) flexible_rest run in
      let (small, made) = flexible_rest-ok bytes l rest in (bytes, got, small, made)

  bm_bytes-with_layout : (l : Layout) (s : ℕ) → bm_bytes h (with_layout md l) s ≡ bm_bytes h md s
  unfolding bm_bytes
  bm_bytes-with_layout l s = refl

  al_size_sect-with_layout : (l : Layout) → al_size_sect (with_layout md l) ≡ al_size_sect md
  unfolding al_size_sect
  al_size_sect-with_layout l = refl

  pub flexible :
      (f : MdFormat) (l : Layout)
      → al_sectors md ≤ 2 ^ 26
      → md.max_peers ≤ 31
      → flexible_internal h md bd ≡ ok l
      → offsets_fit h f (with_layout md l) flex_int bd ≡ ok true
  unfolding offsets_fit flexible_fits
  flexible f l le peers run =
      let (bytes, got, small, made) = flexible_internal-ok l run in
      let b = align (bytes / 2 ^ 9) 8 in
      let a = al_sectors md in
      let bound : b ≤ 2 ^ 26 * 31 = omega arith in
      let al = al_size_sect-al_sectors md le in
      rw
        (
          ← made,
          bm_bytes-with_layout (flexible_of bytes),
          al_size_sect-with_layout (flexible_of bytes),
          al,
          got,
        )
        (rw (
          size_eq a b le bound,
          log_eq a b le bound,
          bitmap_eq a b le bound,
          total_eq a b le bound,
        ))

internal_front :
    (md : MdCpu)
    → al_sectors md ≤ 2 ^ 26
    → al_sectors md ≡ 64
    → ok (front_fits (with_layout md (from_front (2 ^ 18) (pos 72)))) ≡ ok true
unfolding front_fits from_front offset_behind al_size_sect
internal_front md le e = rw (al_size_sect-al_sectors md le, e)

-- The layout that is set passes the test of the offsets, whatever the format.
layout-offsets_fit :
    (h : Headers) (f : MdFormat) (md : MdCpu) (i : MdIndex) (bd : ℕ) (l : Layout)
    → (i ≢ internal) ⊎ (al_sectors md ≡ 64)
    → al_sectors md ≤ 2 ^ 26
    → md.max_peers ≤ 31
    → layout h md i bd ≡ ok l
    → offsets_fit h f (with_layout md l) i bd ≡ ok true
unfolding layout offsets_fit
layout-offsets_fit h f md (slot n) bd l shape le peers run = rw (← ok-injective run, front md _ le)
layout-offsets_fit h f md flex_ext bd l shape le peers run = rw (← ok-injective run, front md _ le)
layout-offsets_fit h f md internal bd l (inl other) le peers run = absurd (other refl)
layout-offsets_fit h f md internal bd l (inr classic) le peers run =
    rw (← ok-injective run) (internal_front md le classic)
layout-offsets_fit h f md flex_int bd l shape le peers run = flexible h md bd f l le peers run

module _ (h : Headers) (option : ℕ) (md : MdCpu) where
  shape_kept :
      {i : MdIndex}
      → (i ≢ internal) ⊎ (al_sectors md ≡ 64)
      → (i ≢ internal) ⊎ (al_sectors (sane_defaults h option md) ≡ 64)
  unfolding sane_defaults
  shape_kept x = x

  kept_le : al_sectors md ≤ 2 ^ 26 → al_sectors (sane_defaults h option md) ≤ 2 ^ 26
  unfolding sane_defaults
  kept_le x = x

-- After a successful re_initialize_md_offsets() the super block passes is_valid_md(), given what
-- the code relies on in the headers and a format from 7 to 9, and provided that it carries the
-- magic number of the format and node numbers in range, that the activity log has at most 2^26
-- sectors, and exactly 64 in the fixed internal layout.
pub re_initialize_md_offsets-is_valid_md :
    (h : Headers) (f : MdFormat) (option : ℕ) (cfg r : Format)
    → IsHeaders h
    → has_layout f ≡ true
    → header_fits h f cfg.md ≡ true
    → (cfg.md_index ≢ internal) ⊎ (al_sectors cfg.md ≡ 64)
    → al_sectors cfg.md ≤ 2 ^ 26
    → re_initialize_md_offsets h option cfg ≡ ok r
    → is_valid_md h f r.md r.md_index r.bd_size ≡ ok true
unfolding is_valid_md re_initialize_md_offsets
re_initialize_md_offsets-is_valid_md h f option cfg r hs known fits shape le run =
    let md = sane_defaults h option cfg.md in
    let (fits', peers) = header_fits-sane_defaults h f option cfg.md fits in
    let (l, got, rest) = >>=-eq-ok (layout h md cfg.md_index cfg.bd_size) _ run in
    let (sect, usable, made) = >>=-eq-ok (max_usable_sectors h _) _ rest in
    let bound = header_fits-peers h f cfg.md fits in
    let offsets =
      layout-offsets_fit h f md cfg.md_index cfg.bd_size l (shape_kept h option cfg.md shape)
        (kept_le h option cfg.md le) (omega (arith, hs.peers_bounds)) got in
    rw (← ok-injective made, known, header_fits-with_layout, fits', offsets)
