-- ===== src/Meta/Convert/Detect.antt =====
-- detect_md() on a device with a super block that the program has laid out and written.
use drbd_utils.Prelude.{ℕ, ◌≤◌, ◌≡◌, ◌≢◌, ◌⊎◌, ◌^◌, refl, Bool, true, ok}
use drbd_utils.Headers.{Headers, IsHeaders}
use drbd_utils.Meta.Types.{v07, v08, v09, internal, MdCpu, Format}
use drbd_utils.Meta.Disk.{md_disk_07_to_cpu, md_disk_08_to_cpu, md_cpu_to_disk_09}
use drbd_utils.Meta.Disk.Wide.{Fits09}
use drbd_utils.Meta.Disk.RoundTrip.{disk_09-back}
use drbd_utils.Meta.Layout.{re_initialize_md_offsets}
use drbd_utils.Meta.Valid.{header_fits, is_valid_md}
use drbd_utils.Meta.Valid.Layout.{al_sectors, re_initialize_md_offsets-is_valid_md}
use drbd_utils.Meta.Convert.{OnDiskBuffer, detect_md}

-- A state of format 9 that re_initialize_md_offsets() has laid out, and that is written to the place
-- where detect_md() looks, is detected as format 9 and read back as it was, whatever the bytes mean as
-- one of the older formats, if the tests for those come to an answer. The conditions are those of
-- is_valid_md() after the layout (what the code relies on in the headers, magic number and node
-- numbers, an activity log of at most 2^26 sectors, and exactly 64 in the fixed internal layout) and
-- those of the round trip (Fits09).
pub detect_md-re_initialize_md_offsets :
    (h : Headers) (option : ℕ) (cfg r : Format) (buffer : OnDiskBuffer) (md : MdCpu) (a b : Bool)
    → IsHeaders h
    → header_fits h v09 cfg.md ≡ true
    → (cfg.md_index ≢ internal) ⊎ (al_sectors cfg.md ≡ 64)
    → al_sectors cfg.md ≤ 2 ^ 26
    → re_initialize_md_offsets h option cfg ≡ ok r
    → Fits09 h r.md
    → buffer.as_09 ≡ md_cpu_to_disk_09 h r.md
    → is_valid_md h v07 (md_disk_07_to_cpu h buffer.as_07) r.md_index r.bd_size ≡ ok a
    → is_valid_md h v08 (md_disk_08_to_cpu h buffer.as_08) r.md_index r.bd_size ≡ ok b
    → detect_md h buffer md r.bd_size r.md_index ≡ ok (v09, r.md)
unfolding detect_md
detect_md-re_initialize_md_offsets h option cfg r buffer md a b hs fits shape le run f written p q =
    let valid = re_initialize_md_offsets-is_valid_md h v09 option cfg r hs refl fits shape le run in
    rw (p, q, written, disk_09-back h r.md f, valid) refl
