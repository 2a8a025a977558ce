-- ===== src/Tests/Meta.antt =====
-- A device of 1 GiB with internal meta data, and its super block.
use drbd_utils.Prelude.{
  ℤ, ℕ, ◌+◌, ◌-◌, ◌*◌, ◌%◌, ◌^◌, ◌≤◌, ◌<◌, ◌≡◌, refl, inl, true, false, pos, negsuc, ok, ltb,
  if◌then◌else◌, arith,
}
use drbd_utils.Headers.{sample_headers, sample_headers-IsHeaders}
use drbd_utils.Meta.Types.{MdFormat, v07, v08, v09, flex_int, PeerMd, MdCpu, Format}
use drbd_utils.Endian.{swab32}
use drbd_utils.Meta.Flags.{has}
use drbd_utils.Meta.Disk.{
  md_disk_07_to_cpu, md_disk_08_to_cpu, md_cpu_to_disk_08, md_disk_09_to_cpu, md_cpu_to_disk_09,
}
use drbd_utils.Meta.Disk.Wide.{kept_08, FitsCommon, Fits08, Fits09}
use drbd_utils.Meta.Disk.RoundTrip.{disk_08-back, disk_09-back}
use drbd_utils.Meta.Layout.Bounds.{bm_bytes-covers, flex_int-last_block}
use drbd_utils.Meta.Convert.{
  connected_ind, full_sync, peer_out_dated, md_convert_08_to_09, md_08_as_09, md_09_as_08,
  OnDiskBuffer, detect_md,
}
use drbd_utils.Meta.Convert.Detect.{detect_md-re_initialize_md_offsets}
use drbd_utils.Meta.Convert.Laws.{IsApart, flags-md_09_as_08, md_convert_08_to_09-never_fails}
use drbd_utils.Meta.Layout.{
  is_power_of_2, bm_bytes, v07_style_md_get_byte_offset, re_initialize_md_offsets,
  max_usable_sectors, sane_defaults,
}
use drbd_utils.Meta.Valid.{is_valid_md, header_fits}
use drbd_utils.Meta.Valid.Layout.{re_initialize_md_offsets-is_valid_md}

abbrev sample_peer : PeerMd
sample_peer = record { bitmap_uuid = 0; bitmap_dagtag = 0; flags = 0; bitmap_index = pos 0 }

abbrev sample_md : ℕ → MdCpu
sample_md magic = record {
  gc = λ i. 0;
  magic = magic;
  effective_size = 2097016;
  md_size_sect = 136;
  al_offset = negsuc 63;
  al_nr_extents = 1237;
  bm_offset = negsuc 127;
  current_uuid = 0x8c4a3d4e5f601720;
  history_uuids = λ i. if ltb i 2 then 0xa1b2c3d4e5f60718 else 0;
  flags = 2 ^ 0 + 2 ^ 4 + 2 ^ 2;
  device_uuid = 0x1234;
  bm_bytes_per_bit = 4096;
  la_peer_max_bio_size = 2 ^ 20;
  max_peers = 1;
  node_id = pos 0;
  peers = λ p. record sample_peer { bitmap_uuid = if ltb p 1 then 0x7766 else 0 };
  al_stripes = 1;
  al_stripe_size_4k = 8;
  members = 0;
}

abbrev sample_format : MdFormat → ℕ → Format
sample_format f magic = record {
  version = f;
  md_hard_sect_size = 512;
  md_index = flex_int;
  bm_bytes = 32768;
  bits_set = 0;
  update_lk_bdev = false;
  md = sample_md magic;
  md_offset = 2 ^ 30 - 4096;
  al_offset = 2 ^ 30 - 4096 - 64 * 512;
  bm_offset = 2 ^ 30 - 4096 - 128 * 512;
  wipe_fixed = 0;
  wipe_flex = 0;
  wipe_resize = 0;
  bd_size = 2 ^ 30;
  max_usable_sect = 2097016;
}

-- The fields are cleared first, so that the run has to fill them.
abbrev blank_format : Format
blank_format = record (sample_format v09 (0x83740267 + 6)) {
  bm_bytes = 0;
  al_offset = 0;
  bm_offset = 0;
  max_usable_sect = 0;
  md = record (sample_md (0x83740267 + 6)) {
    md_size_sect = 0;
    al_offset = pos 0;
    bm_offset = pos 0;
    max_peers = 1;
  };
}

blank_run :
    re_initialize_md_offsets sample_headers 0 blank_format ≡ ok (sample_format v09 (0x83740267 + 6))
unfolding re_initialize_md_offsets sane_defaults max_usable_sectors
blank_run = refl

re_initialize_md_offsets-is_valid_md_example :
    is_valid_md sample_headers v09 (sample_md (0x83740267 + 6)) flex_int (2 ^ 30) ≡ ok true
re_initialize_md_offsets-is_valid_md_example =
    re_initialize_md_offsets-is_valid_md sample_headers v09 0 blank_format
      (sample_format v09 (0x83740267 + 6)) sample_headers-IsHeaders refl
      (unfold header_fits in refl) (inl λ e. cc) (omega arith) blank_run

sample_common :
    (magic : ℕ) (node : ℤ) (members : ℕ)
    → magic < 2 ^ 32
    → FitsCommon (record (sample_md magic) { node_id = node; members = members })
sample_common magic node members lt = record {
  magic = lt;
  effective_size = omega arith;
  md_size_sect = omega arith;
  al_offset = omega arith;
  al_nr_extents = omega arith;
  bm_offset = omega arith;
  current_uuid = omega arith;
  flags = omega arith;
  device_uuid = omega arith;
  bm_bytes_per_bit = omega arith;
  la_peer_max_bio_size = omega arith;
  al_stripes = omega arith;
  al_stripe_size_4k = omega arith;
}

sample_fits_09 : (magic : ℕ) → magic < 2 ^ 32 → Fits09 sample_headers (sample_md magic)
sample_fits_09 magic lt = record {
  common = sample_common magic (sample_md magic).node_id (sample_md magic).members lt;
  members = omega arith;
  max_peers = omega arith;
  node_id = omega arith;
  peers = λ p q. record {
    bitmap_uuid = ground arith;
    bitmap_dagtag = omega arith;
    flags = omega arith;
    bitmap_index = omega arith;
  };
  no_peers = λ p q. let e : ltb p 1 ≡ false = ground arith in rw e;
  history = λ i q. ground arith;
  no_history = λ i q. ground arith;
  no_gc = λ i. refl;
}

disk_09-back_example :
    md_disk_09_to_cpu sample_headers (md_cpu_to_disk_09 sample_headers (sample_md 77))
    ≡ sample_md 77
disk_09-back_example = disk_09-back sample_headers (sample_md 77) (sample_fits_09 77 (omega arith))

-- A state that was one of format 9: it has a node id and members.
abbrev converted_md : MdCpu
converted_md = record (sample_md 77) { node_id = pos 3; members = 9 }

converted_fits_08 : Fits08 sample_headers converted_md
converted_fits_08 = record {
  common = sample_common 77 (pos 3) 9 (omega arith);
  bitmap_uuid = omega arith;
  history = λ i q. ground arith;
  geometry = omega arith;
}

disk_08-back_example :
    md_disk_08_to_cpu sample_headers (md_cpu_to_disk_08 sample_headers converted_md)
    ≡ kept_08 sample_headers converted_md
disk_08-back_example = disk_08-back sample_headers converted_md converted_fits_08

power : is_power_of_2 4096 ≡ true
unfolding is_power_of_2
power = refl

bm_bytes-covers_example :
    (bytes : ℕ) × (bm_bytes sample_headers (sample_md 77) 2097152 ≡ ok bytes)
    × (bytes % 4096 ≡ 0)
    × (32768 ≤ bytes)
    × (bytes < 36864)
    × (2097152 ≤ 4096 * 64 * 8)
bm_bytes-covers_example =
    bm_bytes-covers sample_headers sample_headers-IsHeaders (sample_md 77) 2097152 (omega arith)
      (omega arith, omega arith, omega arith, power)

flex_int-last_block_example :
    let offset = v07_style_md_get_byte_offset flex_int (2 ^ 30 + 512) in
    (offset % 4096 ≡ 0) × (offset + 4096 ≤ 2 ^ 30 + 512) × (2 ^ 30 + 512 < offset + 8192)
flex_int-last_block_example = flex_int-last_block (2 ^ 30 + 512) (omega arith) (omega arith)

sample-IsApart : IsApart sample_headers
sample-IsApart = record {
  connected-full_sync = omega arith;
  connected-outdated = omega arith;
  full_sync-outdated = omega arith;
}

flags-md_09_as_08_example :
    let mid = md_08_as_09 sample_headers (sample_md 77) in
    ((md_09_as_08 sample_headers mid).flags ≡ 21)
    × ((has mid.flags connected_ind ≡ false)
        × ((has mid.flags full_sync ≡ false)
            × ((has mid.flags peer_out_dated ≡ false)
                × ((has (mid.peers 0).flags 0 ≡ has 21 connected_ind)
                    × ((has (mid.peers 0).flags 3 ≡ has 21 full_sync)
                        × (has (mid.peers 0).flags 1 ≡ has 21 peer_out_dated))))))
flags-md_09_as_08_example =
    flags-md_09_as_08 sample_headers sample-IsApart (sample_md 77) (omega arith) (omega arith)

md_convert_08_to_09-never_fails_example :
    md_convert_08_to_09 sample_headers 0 (sample_format v08 77)
    ≡ re_initialize_md_offsets sample_headers 0
        (record (sample_format v08 77) { md = md_08_as_09 sample_headers (sample_md 77) })
md_convert_08_to_09-never_fails_example =
    md_convert_08_to_09-never_fails sample_headers 0 (sample_format v08 77) sample_headers-IsHeaders
      (omega arith, omega arith) (inl λ e. cc) (omega arith)

-- A device with a super block of format 9, and zeros in the places of the other two.
abbrev sample_buffer : OnDiskBuffer
sample_buffer = record {
  as_07 = record {
    la_kb = 0;
    gc = λ _. 0;
    magic = 0;
    md_size_kb = 0;
    al_offset = 0;
    al_nr_extents = 0;
    bm_offset = 0;
  };
  as_08 = record {
    effective_size = 0;
    uuid = λ _. 0;
    device_uuid = 0;
    flags = 0;
    magic = 0;
    md_size_sect = 0;
    al_offset = 0;
    al_nr_extents = 0;
    bm_offset = 0;
    bm_bytes_per_bit = 0;
    la_peer_max_bio_size = 0;
    al_stripes = 0;
    al_stripe_size_4k = 0;
  };
  as_09 = md_cpu_to_disk_09 sample_headers (sample_md (0x83740267 + 6));
}

no_format_07 :
    is_valid_md sample_headers v07
      (md_disk_07_to_cpu sample_headers sample_buffer.as_07)
      flex_int
      (2 ^ 30)
    ≡ ok false
unfolding is_valid_md md_disk_07_to_cpu swab32
no_format_07 = refl

no_format_08 :
    is_valid_md sample_headers v08
      (md_disk_08_to_cpu sample_headers sample_buffer.as_08)
      flex_int
      (2 ^ 30)
    ≡ ok false
unfolding is_valid_md md_disk_08_to_cpu swab32
no_format_08 = refl

format_09 :
    is_valid_md sample_headers v09
      (md_disk_09_to_cpu sample_headers sample_buffer.as_09)
      flex_int
      (2 ^ 30)
    ≡ ok true
unfolding is_valid_md md_disk_09_to_cpu md_cpu_to_disk_09 swab32
format_09 = refl

run_detect_md :
    detect_md sample_headers sample_buffer (sample_md 77) (2 ^ 30) flex_int
    ≡ ok (v09, md_disk_09_to_cpu sample_headers sample_buffer.as_09)
unfolding detect_md
run_detect_md = rw (no_format_07, no_format_08, format_09)

detect_md-re_initialize_md_offsets_example :
    detect_md sample_headers sample_buffer (sample_md 77) (2 ^ 30) flex_int
    ≡ ok (v09, sample_md (0x83740267 + 6))
detect_md-re_initialize_md_offsets_example =
    detect_md-re_initialize_md_offsets sample_headers 0 blank_format
      (sample_format v09 (0x83740267 + 6)) sample_buffer (sample_md 77) false false
      sample_headers-IsHeaders (unfold header_fits in refl) (inl λ e. cc) (omega arith) blank_run
      (sample_fits_09 (0x83740267 + 6) (omega arith)) refl no_format_07 no_format_08
