-- ===== src/Meta/Log/Scan.antt =====
-- Transactions of the two log formats, and the first loop of replay_al_84() and replay_al_07(): the
-- blocks are decoded, and the oldest and the newest transaction found by their numbers.
pub mod Order
pub mod Steps
use drbd_utils.Prelude.{
  ℕ, zero, suc, ◌+◌, ◌-◌, ◌*◌, ◌/◌, ◌%◌, ◌^◌, Bool, true, false, not, ◌&&◌, ◌||◌, bit_xor, u32, ltb,
  leb, ◌==◌, if◌then◌else◌, ℤ, sub_ℕ, pos_part, neg_part, s32,
}
use drbd_utils.Headers.{Headers}
use drbd_utils.Endian.{be16, be32, swab16, swab32}

-- struct al_transaction_on_disk of drbd-headers: the fields that are read. The checksum covers all
-- 4096 bytes of the block with `crc32c` cleared, and is a parameter of the block.
pub record AlBlock : Type 0 where
  pub magic : ℕ
  pub tr_number : ℕ
  pub crc32c : ℕ
  pub transaction_type : ℕ
  pub n_updates : ℕ
  pub context_size : ℕ
  pub context_start_slot_nr : ℕ
  pub update_slot_nr : ℕ → ℕ
  pub update_extent_nr : ℕ → ℕ
  pub context : ℕ → ℕ

-- struct al_4k_cpu
pub record Al4kCpu : Type 0 where
  pub magic : ℕ
  pub tr_number : ℕ
  pub crc32c : ℕ
  pub transaction_type : ℕ
  pub n_updates : ℕ
  pub context_size : ℕ
  pub context_start_slot_nr : ℕ
  pub update_slot_nr : ℕ → ℕ
  pub update_extent_nr : ℕ → ℕ
  pub context : ℕ → ℕ
  pub is_valid : Bool

-- `sum` is the checksum of a block whose own field is 0.
unfoldable pub v84_al_disk_to_cpu : Headers → (AlBlock → ℕ) → AlBlock → Al4kCpu
v84_al_disk_to_cpu h sum d = record {
  magic = be32 d.magic;
  tr_number = be32 d.tr_number;
  crc32c = be32 d.crc32c;
  transaction_type = be16 d.transaction_type;
  n_updates = be16 d.n_updates;
  context_size = be16 d.context_size;
  context_start_slot_nr = be16 d.context_start_slot_nr;
  update_slot_nr = λ i. be16 (d.update_slot_nr i);
  update_extent_nr = λ i. be32 (d.update_extent_nr i);
  context = λ i. be32 (d.context i);
  is_valid = be32 d.magic == h.al_magic && be32 d.crc32c == sum (record d { crc32c = 0 });
}

-- struct al_sector_on_disk; the entries of `updates` as two arrays
pub record AlSector : Type 0 where
  pub magic : ℕ
  pub tr_number : ℕ
  pub pos : ℕ → ℕ
  pub extent : ℕ → ℕ
  pub xor_sum : ℕ

-- struct al_sector_cpu, with the value that v07_al_disk_to_cpu() returns
pub record AlSectorCpu : Type 0 where
  pub tr_number : ℕ
  pub pos : ℕ → ℕ
  pub extent : ℕ → ℕ
  pub is_valid : Bool

-- The exclusive or of the first `n` extents.
xor_of : (ℕ → ℕ) → ℕ → ℕ
xor_of extent zero = 0
xor_of extent (suc n) = bit_xor (xor_of extent n) (extent n)

unfoldable pub v07_al_disk_to_cpu : Headers → AlSector → AlSectorCpu
unfolding xor_of
v07_al_disk_to_cpu h d = record {
  tr_number = be32 d.tr_number;
  pos = λ i. be32 (d.pos i);
  extent = λ i. be32 (d.extent i);
  is_valid = be32 d.magic == h.magic && be32 d.xor_sum == xor_of (λ i. be32 (d.extent i)) 62;
}

-- struct al_cursor
pub record Cursor : Type 0 where
  pub i : ℕ
  pub tr_number : ℕ

-- `(int)a - (int)b`: the exact difference. Where it does not fit an int, C leaves the result open;
-- compilers take the two numbers as ints then, as here, or wrap.
abbrev pub distance : ℕ → ℕ → ℤ
distance a b = sub_ℕ (pos_part (s32 a) + neg_part (s32 b)) (neg_part (s32 a) + pos_part (s32 b))

unfoldable pub is_before : ℕ → ℕ → Bool
is_before a b = not (neg_part (distance a b) == 0)

unfoldable pub is_after : ℕ → ℕ → Bool
is_after a b = not (pos_part (distance a b) == 0)

-- The counts of the loop and its two cursors.
pub record Scan : Type 0 where
  pub found_valid : ℕ
  pub found_updates : ℕ
  pub oldest : Cursor
  pub newest : Cursor

abbrev pub start : Scan
start = record {
  found_valid = 0;
  found_updates = 0;
  oldest = record { i = 0; tr_number = 0 };
  newest = record { i = 0; tr_number = 0 };
}

-- The part of the body that both loops share, at a transaction to be replayed.
unfoldable pub note_update : ℕ → ℕ → Scan → Scan
unfolding is_before is_after
note_update b tr s =
    let here : Cursor = record { i = b; tr_number = tr } in
    if s.found_updates == 0
    then record s { found_updates = 1; oldest = here; newest = here }
    else record s {
      found_updates = s.found_updates + 1;
      oldest = if is_before tr s.oldest.tr_number then here else s.oldest;
      newest = if is_after tr s.newest.tr_number then here else s.newest;
    }

-- One round for block `b` of the log of 8.4.
unfoldable pub scan_84 : Headers → Al4kCpu → ℕ → Scan → Scan
unfolding note_update
scan_84 h al b s =
    let counted = record s { found_valid = s.found_valid + 1 } in
    if not al.is_valid
    then s
    else if al.transaction_type == h.al_tr_initialized
    then counted
    else note_update b al.tr_number counted

-- The same for the log of 0.7, where every valid sector counts.
unfoldable pub scan_07 : AlSectorCpu → ℕ → Scan → Scan
unfolding note_update
scan_07 al b s =
    if not al.is_valid
    then s
    else note_update b al.tr_number (record s { found_valid = s.found_valid + 1 })

-- The loop over the first `n` blocks.
unfoldable pub scan {ℓ} : {A : Type ℓ} → (A → ℕ → Scan → Scan) → (ℕ → A) → ℕ → Scan
scan body al zero = start
scan body al (suc n) = body (al n) n (scan body al n)
