-- ===== src/Meta/Log/Replay.antt =====
-- The second half of replay_al_84(), replay_al_07() and replay_al_pmem(): from the oldest to the
-- newest transaction the table of hot extents is written, 65534 slots of which ~0U is unused.
pub mod Bounds
use drbd_utils.Prelude.{
  ℕ, zero, suc, ◌+◌, ◌-◌, ◌*◌, ◌/◌, ◌%◌, ◌^◌, Bool, true, false, not, ◌&&◌, ◌||◌, ltb, leb, ◌==◌,
  if◌then◌else◌,
}
use drbd_utils.Headers.{Headers}
use drbd_utils.Endian.{be32, swab32}
use drbd_utils.Meta.Types.{MdFormat, v06, v07, v08, v09, unknown, Format}
use drbd_utils.Meta.Flags.{has}
use drbd_utils.Meta.Log.Ring.{al_tr_number_to_on_disk_slot}
use drbd_utils.Meta.Log.Scan.{
  AlBlock, Al4kCpu, v84_al_disk_to_cpu, AlSector, AlSectorCpu, v07_al_disk_to_cpu, Cursor, Scan,
  scan, scan_84, scan_07,
}

abbrev pub al_extents_max : ℕ
al_extents_max = 65534

abbrev pub unused : ℕ
unused = 2 ^ 32 - 1

-- `hot_extent[slot] = extent`, for a slot in range; others are reported and skipped.
unfoldable pub mark : ℕ → ℕ → (ℕ → ℕ) → ℕ → ℕ
mark slot extent hot =
    if leb al_extents_max slot then hot else (λ q. if q == slot then extent else hot q)

-- One entry of the context, and one update, of a transaction of 8.4.
mark_context : Al4kCpu → ℕ → (ℕ → ℕ) → ℕ → ℕ
unfolding mark
mark_context al i hot =
    let slot = al.context_start_slot_nr + i in
    if al.context i == unused && leb al.context_size slot then hot else mark slot (al.context i) hot

mark_update : Al4kCpu → ℕ → (ℕ → ℕ) → ℕ → ℕ
unfolding mark
mark_update al i hot =
    let slot = al.update_slot_nr i in
    if leb al.n_updates i && slot == 2 ^ 16 - 1 then hot else mark slot (al.update_extent_nr i) hot

-- `for (i = 0; i < n; i++)` over the table.
unfoldable pub entries : (ℕ → (ℕ → ℕ) → ℕ → ℕ) → ℕ → (ℕ → ℕ) → ℕ → ℕ
entries body zero hot = hot
entries body (suc n) hot = body n (entries body n hot)

unfoldable pub replay_transaction : Headers → Al4kCpu → (ℕ → ℕ) → ℕ → ℕ
unfolding mark_context mark_update entries
replay_transaction h al hot =
    if not al.is_valid || al.transaction_type == h.al_tr_initialized
    then hot
    else entries (mark_update al) h.al_updates_per_transaction
        (entries (mark_context al) h.al_context_per_transaction hot)

-- One sector of the old format; its loop counts down from 61 to 0.
old_entry : AlSectorCpu → ℕ → (ℕ → ℕ) → ℕ → ℕ
unfolding mark
old_entry al i hot = if al.extent i == unused then hot else mark (al.pos i) (al.extent i) hot

old_entries : AlSectorCpu → ℕ → (ℕ → ℕ) → ℕ → ℕ
unfolding old_entry
old_entries al zero hot = hot
old_entries al (suc n) hot = old_entries al n (old_entry al n hot)

unfoldable pub replay_sector : AlSectorCpu → (ℕ → ℕ) → ℕ → ℕ
unfolding old_entries
replay_sector al hot = if not al.is_valid then hot else old_entries al 62 hot

-- `for (b = oldest.i; b <= newest.i; b++)`, with `left` rounds to go.
unfoldable pub replay_from {ℓ} :
    {A : Type ℓ} → (A → (ℕ → ℕ) → ℕ → ℕ) → (ℕ → A) → ℕ → ℕ → ℕ → (ℕ → ℕ) → ℕ → ℕ
replay_from body al mx zero b hot = hot
replay_from body al mx (suc left) b hot =
    replay_from body al mx left (b + 1) (body (al (b % mx)) hot)

-- The rounds after `if (newest.i < oldest.i) newest.i += mx;`
abbrev pub rounds : ℕ → Scan → ℕ
rounds mx s = (if ltb s.newest.i s.oldest.i then s.newest.i + mx else s.newest.i) + 1 - s.oldest.i

-- The value that a replay returns: -ENODATA, -EINVAL, or a number that is not negative.
pub data Verdict : Type 0 where
  enodata einval : Verdict
  found : ℕ → Verdict

unfoldable pub replay_decoded : Headers → ℕ → (ℕ → Al4kCpu) → (ℕ → ℕ) → Verdict × (ℕ → ℕ)
unfolding scan scan_84 replay_transaction replay_from
replay_decoded h mx al hot =
    let s = scan (scan_84 h) al mx in
    if s.found_valid == 0
    then (enodata, hot)
    else if s.found_updates == 0
    then (if s.found_valid == mx || (not (al 0).is_valid && s.found_valid == mx - 1)
        then (found 0, hot)
        else (einval, hot))
    else (
      found s.found_updates,
      replay_from (replay_transaction h) al mx (rounds mx s) s.oldest.i hot,
    )

-- `blocks` is the log as it stands in on_disk_buffer.
unfoldable pub replay_al_84 :
    Headers → (AlBlock → ℕ) → Format → (ℕ → AlBlock) → (ℕ → ℕ) → Verdict × (ℕ → ℕ)
unfolding replay_decoded v84_al_disk_to_cpu al_tr_number_to_on_disk_slot
replay_al_84 h sum cfg blocks hot =
    let mx = cfg.md.al_stripes * cfg.md.al_stripe_size_4k % 2 ^ 32 in
    let block =
      λ (b : ℕ). al_tr_number_to_on_disk_slot cfg.md.al_stripes cfg.md.al_stripe_size_4k b mx in
    replay_decoded h mx (λ b. v84_al_disk_to_cpu h sum (blocks (block b))) hot

unfoldable pub replay_al_07 : Headers → Format → (ℕ → AlSector) → (ℕ → ℕ) → Verdict × (ℕ → ℕ)
unfolding scan scan_07 replay_sector replay_from v07_al_disk_to_cpu
replay_al_07 h cfg sectors hot =
    let mx = 1 + (cfg.md.al_nr_extents + 61 - 1) % 2 ^ 32 / 61 in
    let al = λ (b : ℕ). v07_al_disk_to_cpu h (sectors b) in
    let s = scan scan_07 al mx in
    if s.found_valid == 0
    then (found 0, hot)
    else (found s.found_valid, replay_from replay_sector al mx (rounds mx s) s.oldest.i hot)

unfoldable pub replay_al_pmem : Format → (ℕ → ℕ) → (ℕ → ℕ) → Verdict × (ℕ → ℕ)
replay_al_pmem cfg slots hot =
    (found 1, λ q. if ltb q cfg.md.al_nr_extents then be32 (slots q) else hot q)

-- Flags of the generation counter are `gc 0`.
unfoldable pub need_to_apply_al : Headers → Format → Bool
need_to_apply_al h cfg = elim cfg.version [
  | v07 ↦ has (cfg.md.gc 0) h.primary_ind
  | v08 ↦ has cfg.md.flags h.primary_ind
  | v09 ↦ has cfg.md.flags h.primary_ind
  | _ ↦ false
]
