-- ===== src/Tests/Log.antt =====
-- A log of four blocks whose transaction numbers go from 2^32 - 1 on to 0, and a striped one.
use drbd_utils.Prelude.{
  ℕ, ◌+◌, ◌-◌, ◌*◌, ◌%◌, ◌^◌, ◌<◌, ◌≡◌, refl, true, arith, ◌/◌, leb, ltb, ◌&&◌, if◌then◌else◌,
}
use drbd_utils.Headers.{sample_headers}
use drbd_utils.Prelude.Bits.{bit}
use drbd_utils.Meta.Log.Apply.{enr_to_bit_range, word_mask}
use drbd_utils.Meta.Log.Apply.Mask.{eight, word_mask-covers}
use drbd_utils.Meta.Log.Ring.{al_tr_number_to_on_disk_slot, slot-IsPermutation}
use drbd_utils.Meta.Log.Scan.{Al4kCpu, scan, scan_84}
use drbd_utils.Meta.Log.Scan.Steps.{age}
use drbd_utils.Meta.Log.Scan.Order.{IsFilled, scan_84-finds_ends}
use drbd_utils.Meta.Log.Replay.{found, replay_decoded, replay_transaction, replay_from}
use drbd_utils.Meta.Log.Replay.Bounds.{replay_decoded-stays_inside, replay_decoded-in_order}

-- Block 2 is the oldest of four, and its number is 2^32 - 2.
abbrev block : ℕ → Al4kCpu
block b = record {
  magic = 0x69cb65a2;
  tr_number = (2 ^ 32 - 2 + age 4 2 b) % 2 ^ 32;
  crc32c = 0;
  transaction_type = 0;
  n_updates = 1;
  context_size = 0;
  context_start_slot_nr = 0;
  update_slot_nr = λ i. b;
  update_extent_nr = λ i. 100 + b;
  context = λ i. 2 ^ 32 - 1;
  is_valid = true;
}

block-IsFilled : IsFilled sample_headers 4 2 (2 ^ 32 - 2) block
block-IsFilled = record {
  valid = λ b lt. refl;
  update = λ b lt e. cc;
  number = λ b lt. refl;
  fits = omega arith;
}

-- The table before a replay: no slot is in use.
abbrev empty_table : ℕ → ℕ
empty_table _ = 2 ^ 32 - 1

scan_84-finds_ends_example :
    let s = scan (scan_84 sample_headers) block 4 in
    (s.found_valid ≡ 4) × (s.found_updates ≡ 4) × (s.oldest.i ≡ 2) × (s.newest.i ≡ (2 + 4 - 1) % 4)
scan_84-finds_ends_example =
    scan_84-finds_ends sample_headers 4 2 (2 ^ 32 - 2) block block-IsFilled (omega arith)
      (omega arith)

replay_decoded-in_order_example :
    replay_decoded sample_headers 4 block empty_table
    ≡ (found 4, replay_from (replay_transaction sample_headers) block 4 4 2 empty_table)
replay_decoded-in_order_example =
    replay_decoded-in_order sample_headers 4 2 (2 ^ 32 - 2) block empty_table block-IsFilled
      (omega arith) (omega arith)

replay_decoded-stays_inside_example :
    (replay_decoded sample_headers 4 block empty_table).1 65534 ≡ 2 ^ 32 - 1
replay_decoded-stays_inside_example =
    replay_decoded-stays_inside sample_headers 4 block empty_table 65534 (omega arith)

slot-IsPermutation_example :
    ((b : ℕ) → b < 3 * 8 → al_tr_number_to_on_disk_slot 3 8 b (3 * 8) < 3 * 8)
    × ((a b : ℕ)
        → a < 3 * 8
        → b < 3 * 8
        → al_tr_number_to_on_disk_slot 3 8 a (3 * 8) ≡ al_tr_number_to_on_disk_slot 3 8 b (3 * 8)
        → a ≡ b)
slot-IsPermutation_example = slot-IsPermutation 3 8 (omega arith) (omega arith)

-- A granularity of 512 KiB: eight bits for each extent, here the third byte of the word.
word_mask-covers_example :
    let r = enr_to_bit_range 6 8 3 in
    (r.on_disk_word32_pos_e ≡ r.on_disk_word32_pos_s + 12)
    × ((k : ℕ)
        → k < 32
        → let here = r.bit_s / 32 * 32 + k in
          bit k (word_mask r) ≡ (if leb r.bit_s here && ltb here r.bit_e then 1 else 0))
word_mask-covers_example = word_mask-covers eight 6 3 (omega arith) (omega arith)
